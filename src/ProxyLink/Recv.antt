-- ===== src/ProxyLink/Recv.antt =====
-- What `recv` keeps true of the packet buffer, and that its loop ends.
use native.Mathlib.Decide.{dec_lt}
use farcri_rs.Prelude.{
  ℕ, suc, ◌+◌, ◌-◌, ◌*◌, ◌<◌, ◌≤◌, Bool-cases, Option-cases, false, inl, inr, Option, none, some,
  List, [], ◌++◌, length, get_or, take, drop, ltb, leb, ◌==◌, if◌then◌else◌, Bytes, ◌≡◌, ◌≢◌, refl,
  sym, ap, ◌∙◌, arith, append_assoc, length-append, length-drop, take-append_exact,
  drop-take_append,
}
use farcri_rs.Buffer.{
  slice, overwrite, get_or-slice, length-slice, get_or-overwrite, length-overwrite, get_or-append,
}
use farcri_rs.ProxyLink.{
  slip_frame_end, ProxyLink, position, io_read, RecvStep, again, packet, invalid_escape, deliver,
  finish_packet, terminated, compact, received, read_more, recv_step,
}
use farcri_rs.ProxyLink.Slices.{position-none, position-some, io_read_lem}
use farcri_rs.ProxyLink.Unescape.{unescape, written_back, unescape_loop-unescape, length-unescape}
use farcri_rs.Slip.Chunks.{flatten}

-- What the comments on the fields say: valid data in `buf[0..buf_len]`, and no terminator in
-- `buf[buf_pos..buf_scan]`.
pub record IsValid (l : ProxyLink) : Type 0 where
  pub pos_le_scan : l.buf_pos ≤ l.buf_scan
  pub scan_le_len : l.buf_scan ≤ l.buf_len
  pub len_le_cap : l.buf_len ≤ length l.buf
  pub scanned : (i : ℕ) → l.buf_pos ≤ i → i < l.buf_scan → get_or l.buf i 0 ≢ slip_frame_end

-- The link when a packet is delivered: the packet stands at the head of its slice.
abbrev pub delivered : ℕ → ℕ → ProxyLink → Bytes → ProxyLink
delivered start stop l u = record l {
  buf = overwrite start (u ++ drop (length u) (slice start stop l.buf)) l.buf;
}

abbrev pub Delivery : ℕ → ℕ → ProxyLink → Option Bytes → RecvStep
Delivery start stop l none = invalid_escape
Delivery start stop l (some u) = packet u (delivered start stop l u)

deliver-written_back :
    (start stop : ℕ) (l : ProxyLink) (o : Option Bytes)
    → start ≤ stop
    → stop ≤ length l.buf
    → unescape (slice start stop l.buf) ≡ o
    → deliver start stop l (written_back [] (slice start stop l.buf) o) ≡ Delivery start stop l o
unfolding deliver
deliver-written_back start stop l none h k e = refl
deliver-written_back start stop l (some u) h k e =
    let window = slice start stop l.buf in
    let rest = drop (length u) window in
    let behind = drop (start + length (u ++ rest)) l.buf in
    let n = length-unescape window e in
    let p : stop - length rest - start ≡ length u =
      omega (arith, n, length-slice start stop l.buf k, length-drop (length u) window) in
    let q =
      ap (λ xs. take (stop - length rest - start) xs)
        (drop-take_append start l.buf ((u ++ rest) ++ behind) (omega arith))
      ∙ (λ i. take (p i) (append_assoc u rest behind i))
      ∙ take-append_exact u (rest ++ behind) in
    λ i. packet (q i) (delivered start stop l u)

-- For a slice inside the buffer, the loop that expands escapes in place delivers the expansion of the
-- slice, or panics if it has none.
pub finish_packet-unescape :
    (start stop : ℕ) (l : ProxyLink)
    → start ≤ stop
    → stop ≤ length l.buf
    → finish_packet start stop l ≡ Delivery start stop l (unescape (slice start stop l.buf))
finish_packet-unescape start stop l h k =
    let window = slice start stop l.buf in
    unfold finish_packet in
    ap (deliver start stop l)
      (unescape_loop-unescape (suc (length window)) [] window 0 window refl (omega arith))
    ∙ deliver-written_back start stop l (unescape window) h k refl

-- What falls in each turn of the loop: three for each byte that is still to be read, two for
-- each that is to be scanned, one if there is something to discard.
unfoldable pub measure : ProxyLink → ℕ
measure l =
    3 * length (flatten l.io.input)
    + 2 * (l.buf_len - l.buf_scan)
    + (if l.buf_pos == 0 then 0 else 1)

abbrev pub Ensures : ProxyLink → RecvStep → Type 0
Ensures l (again l') = IsValid l' × (length l'.buf ≡ length l.buf) × (measure l' < measure l)
Ensures l (packet bs l') = IsValid l' × (length l'.buf ≡ length l.buf)
Ensures l _ = Unit {0}

-- Nothing of what is in the buffer behind `buf_scan` is a terminator.
abbrev pub NoTerminator : ProxyLink → Type 0
NoTerminator l = position slip_frame_end (slice l.buf_scan l.buf_len l.buf) ≡ none

module _ (l : ProxyLink) (v : IsValid l) where
  pub unscanned :
      NoTerminator l → (i : ℕ) → l.buf_pos ≤ i → i < l.buf_len → get_or l.buf i 0 ≢ slip_frame_end
  unscanned h i low high = elim (dec_lt i l.buf_scan) [
    | yes p ↦ v.scanned i low p
    | no p ↦ λ e.
        position-none slip_frame_end (slice l.buf_scan l.buf_len l.buf) (i - l.buf_scan) h
          (omega (arith, v.len_le_cap, length-slice l.buf_scan l.buf_len l.buf v.len_le_cap))
          (get_or-slice l.buf_scan l.buf_len (i - l.buf_scan) l.buf (omega arith)
            ∙ (let q : l.buf_scan + (i - l.buf_scan) ≡ i = omega arith in rw q e))
  ]

  length-compact : length (compact l).buf ≡ length l.buf
  length-compact =
      length-overwrite 0 (slice l.buf_pos l.buf_len l.buf) l.buf
        (omega (arith, v.len_le_cap, length-slice l.buf_pos l.buf_len l.buf v.len_le_cap))

  compact-scanned :
      NoTerminator l
      → (i : ℕ) → i < l.buf_len - l.buf_pos
      → get_or (compact l).buf i 0 ≢ slip_frame_end
  compact-scanned h i high e = unscanned h (l.buf_pos + i) (omega arith) (omega arith) (
      sym (get_or-slice l.buf_pos l.buf_len i l.buf high)
      ∙ sym (
          get_or-append (slice l.buf_pos l.buf_len l.buf) _ i
            (omega (arith, length-slice l.buf_pos l.buf_len l.buf v.len_le_cap)))
      ∙ e)

  compact-Ensures : NoTerminator l → (l.buf_pos == 0) ≡ false → Ensures l (again (compact l))
  compact-Ensures h e = (
    record {
      pos_le_scan = omega arith;
      scan_le_len = omega arith;
      len_le_cap = omega (arith, length-compact, v.len_le_cap);
      scanned = λ i low high. compact-scanned h i high;
    },
    length-compact,
    unfold measure in rw e (omega arith),
  )

  received-Ensures :
      (bs : Bytes) (input : List Bytes)
      → NoTerminator l
      → io_read (length l.buf - l.buf_len) l.io.input ≡ some (bs, input)
      → Ensures l (again (received l bs input))
  received-Ensures bs input h e =
      let (some_byte, room, order) = io_read_lem (length l.buf - l.buf_len) l.io.input e in
      let n = length-overwrite l.buf_len bs l.buf (omega (arith, v.len_le_cap)) in
      let m = ap length order ∙ length-append bs (flatten input) in
      (
        record {
          pos_le_scan = omega (arith, v.pos_le_scan, v.scan_le_len);
          scan_le_len = omega arith;
          len_le_cap = omega (arith, n, v.len_le_cap);
          scanned = λ i low high e.
              unscanned h i low high
                (sym (get_or-overwrite l.buf_len i bs l.buf high v.len_le_cap) ∙ e);
        },
        n,
        unfold measure in omega (arith, m),
      )

  delivered-Ensures :
      (next : ℕ) (o : Option Bytes)
      → l.buf_scan < next
      → next ≤ l.buf_len
      → unescape (slice l.buf_pos (next - 1) l.buf) ≡ o
      → Ensures l (Delivery l.buf_pos (next - 1) (record l { buf_scan = next; buf_pos = next }) o)
  delivered-Ensures next none h k e = tt
  delivered-Ensures next (some u) h k e =
      let window = slice l.buf_pos (next - 1) l.buf in
      let n = length-overwrite l.buf_pos (u ++ drop (length u) window) l.buf (
        omega (
          arith,
          v.pos_le_scan,
          v.len_le_cap,
          length-unescape window e,
          length-append u (drop (length u) window),
          length-drop (length u) window,
          length-slice l.buf_pos (next - 1) l.buf (omega (arith, v.len_le_cap)),
        )) in
      (
        record {
          pos_le_scan = omega arith;
          scan_le_len = k;
          len_le_cap = omega (arith, n, v.len_le_cap);
          scanned = λ i low high. absurd (omega arith);
        },
        n,
      )

  skipped-Ensures :
      (next : ℕ)
      → l.buf_scan < next
      → next ≤ l.buf_len
      → Ensures l (again (record l { buf_scan = next; buf_pos = next }))
  skipped-Ensures next h k = (
    record {
      pos_le_scan = omega arith;
      scan_le_len = k;
      len_le_cap = v.len_le_cap;
      scanned = λ i low high. absurd (omega arith);
    },
    refl,
    unfold measure in ground arith,
  )

  terminated-Ensures : (end : ℕ) → end < l.buf_len - l.buf_scan → Ensures l (terminated end l)
  terminated-Ensures end h =
      let next = l.buf_scan + (end + 1) in
      let l' = record l { buf_scan = next; buf_pos = next } in
      elim (Bool-cases (ltb 0 end)) [
        | inl some_bytes ↦
            unfold terminated in
            rw some_bytes (
              rw
                (finish_packet-unescape l.buf_pos (next - 1) l' (omega (arith, v.pos_le_scan))
                  (omega (arith, v.len_le_cap)))
                (delivered-Ensures next _ (omega arith) (omega arith) refl))
        | inr empty ↦
            unfold terminated in rw empty (skipped-Ensures next (omega arith) (omega arith))
      ]

  read_more-Ensures : NoTerminator l → Ensures l (read_more l)
  read_more-Ensures h = elim (Bool-cases (leb (length l.buf - l.buf_len) 1)) [
    | inl full ↦ elim (Bool-cases (l.buf_pos == 0)) [
      | inl p ↦ unfold read_more in rw (full, p) tt
      | inr p ↦ unfold read_more in rw (full, p) (compact-Ensures h p)
    ]
    | inr room ↦ elim (Option-cases (io_read (length l.buf - l.buf_len) l.io.input)) [
      | inl e ↦ unfold read_more in rw (room, e) tt
      | inr (r, e) ↦ unfold read_more in rw (room, e) (received-Ensures r.0 r.1 h e)
    ]
  ]

-- Each turn of the loop of `recv` keeps the buffer's invariant and its capacity, and if it does not
-- return or panic it comes nearer to the end.
pub recv_step-Ensures : (l : ProxyLink) → IsValid l → Ensures l (recv_step l)
recv_step-Ensures l v =
    elim (Option-cases (position slip_frame_end (slice l.buf_scan l.buf_len l.buf))) [
      | inl e ↦ unfold recv_step in rw e (read_more-Ensures l v e)
      | inr (end, e) ↦
          let found = position-some slip_frame_end (slice l.buf_scan l.buf_len l.buf) end e in
          unfold recv_step in
          rw e (
            terminated-Ensures l v end
              (omega (arith, found.0, length-slice l.buf_scan l.buf_len l.buf v.len_le_cap)))
    ]
