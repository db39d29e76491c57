-- ===== src/ProxyLink/Stream.antt =====
-- `recv` against the stream of the bytes that are yet to be decoded.
use native.Mathlib.Decide.{dec_lt}
use farcri_rs.Prelude.{
  ℕ, ◌+◌, ◌-◌, ◌<◌, ◌≤◌, Bool-cases, Option-cases, inl, inr, Option, none, some, List, [], ◌∷◌,
  ◌++◌, ◌⊎◌, length, get_or, take, drop, ltb, leb, ◌==◌, Bytes, ◌≡◌, ◌≢◌, refl, sym, ap, ◌∙◌, arith,
  append_assoc, length-append, length-drop,
}
use farcri_rs.Buffer.{
  slice, overwrite, get_or-slice, length-slice, drop-overwrite, slice-overwrite, slice-cut,
  slice-head, take-exact,
}
use farcri_rs.ProxyLink.{
  slip_frame_end, ProxyLink, position, io_read, RecvStep, again, packet, invalid_escape, too_large,
  blocked, terminated, compact, received, read_more, recv_step,
}
use farcri_rs.ProxyLink.Slices.{position-some, io_read_lem, io_read-none}
use farcri_rs.ProxyLink.Cuts.{position-eq_none, position-get, position-before}
use farcri_rs.ProxyLink.Unescape.{unescape, length-unescape}
use farcri_rs.ProxyLink.Recv.{IsValid, Delivery, finish_packet-unescape, NoTerminator, unscanned}
use farcri_rs.Slip.Chunks.{flatten}

-- The bytes that are yet to be decoded, in the buffer and behind it.
abbrev pub unread : ProxyLink → Bytes
unread l = slice l.buf_pos l.buf_len l.buf ++ flatten l.io.input

abbrev pub NoEnd : Bytes → Type 0
NoEnd bs = position slip_frame_end bs ≡ none

-- What a turn of the loop does to that stream. A packet is the expansion of the frame at its
-- head. A turn that goes on leaves the stream alone, or discards a frame with no byte behind
-- `buf_scan`: such a frame holds just the bytes that were scanned before.
abbrev pub Follows : ProxyLink → RecvStep → Type 0
Follows l (again l') =
    (unread l' ≡ unread l)
    ⊎ (unread l ≡ slice l.buf_pos l.buf_scan l.buf ++ slip_frame_end ∷ unread l')
Follows l (packet u l') =
    (body : Bytes) × (unread l ≡ body ++ slip_frame_end ∷ unread l')
    × NoEnd body
    × (unescape body ≡ some u)
Follows l invalid_escape =
    (body rest : Bytes) × (unread l ≡ body ++ slip_frame_end ∷ rest)
    × NoEnd body
    × (unescape body ≡ none)
Follows l too_large =
    (l.buf_pos ≡ 0) × NoEnd (slice l.buf_pos l.buf_len l.buf) × (length l.buf ≤ l.buf_len + 1)
Follows l blocked = NoEnd (slice l.buf_pos l.buf_len l.buf) × (flatten l.io.input ≡ [])

module _ (l : ProxyLink) (v : IsValid l) where
  slice-NoEnd :
      (stop : ℕ)
      → stop ≤ l.buf_len
      → ((i : ℕ) → l.buf_pos ≤ i → i < stop → get_or l.buf i 0 ≢ slip_frame_end)
      → NoEnd (slice l.buf_pos stop l.buf)
  slice-NoEnd stop k h =
      let n = length-slice l.buf_pos stop l.buf (omega (arith, v.len_le_cap)) in
      position-eq_none slip_frame_end (slice l.buf_pos stop l.buf) (λ i p e.
        h (l.buf_pos + i) (omega arith) (omega (arith, n))
          (sym (get_or-slice l.buf_pos stop i l.buf (omega (arith, n))) ∙ e))

  compact-unread : unread (compact l) ≡ unread l
  compact-unread =
      let s = slice l.buf_pos l.buf_len l.buf in
      ap (λ xs. xs ++ flatten l.io.input)
        (take-exact (l.buf_len - l.buf_pos - 0) s _
          (omega (arith, length-slice l.buf_pos l.buf_len l.buf v.len_le_cap)))

  received-unread :
      (bs : Bytes) (input : List Bytes)
      → io_read (length l.buf - l.buf_len) l.io.input ≡ some (bs, input)
      → unread (received l bs input) ≡ unread l
  received-unread bs input e =
      let (_, _, order) = io_read_lem (length l.buf - l.buf_len) l.io.input e in
      ap (λ xs. xs ++ flatten input)
        (slice-overwrite l.buf_pos l.buf_len bs l.buf (omega (arith, v.pos_le_scan, v.scan_le_len))
          v.len_le_cap)
      ∙ append_assoc (slice l.buf_pos l.buf_len l.buf) bs (flatten input)
      ∙ ap (λ xs. slice l.buf_pos l.buf_len l.buf ++ xs) (sym order)

  read_more-Follows : NoTerminator l → Follows l (read_more l)
  read_more-Follows h =
      let none_left = slice-NoEnd l.buf_len (omega arith) (unscanned l v h) in
      elim (Bool-cases (leb (length l.buf - l.buf_len) 1)) [
        | inl full ↦ elim (Bool-cases (l.buf_pos == 0)) [
          | inl p ↦ unfold read_more in rw (full, p) (ground arith, none_left, ground arith)
          | inr p ↦ unfold read_more in rw (full, p) (inl compact-unread)
        ]
        | inr room ↦ elim (Option-cases (io_read (length l.buf - l.buf_len) l.io.input)) [
          | inl e ↦
              unfold read_more in
              rw (room, e) (none_left, io_read-none _ l.io.input (ground arith) e)
          | inr (r, e) ↦ unfold read_more in rw (room, e) (inl (received-unread r.0 r.1 e))
        ]
      ]

  -- The frame whose terminator was found at `stop`, in front of what follows.
  module _ (stop : ℕ) (high : stop < l.buf_len) (found : get_or l.buf stop 0 ≡ slip_frame_end)
      (low : l.buf_scan ≤ stop) where
    unread_cut :
        unread l
        ≡ slice l.buf_pos stop l.buf
          ++ slip_frame_end ∷ (slice (stop + 1) l.buf_len l.buf ++ flatten l.io.input)
    unread_cut =
        ap (λ xs. xs ++ flatten l.io.input)
          (slice-cut l.buf_pos stop l.buf_len l.buf (omega (arith, v.pos_le_scan)) (omega arith)
            ∙ ap (λ xs. slice l.buf_pos stop l.buf ++ xs)
                (slice-head stop l.buf_len l.buf high v.len_le_cap
                  ∙ ap (λ b. b ∷ slice (stop + 1) l.buf_len l.buf) found))
        ∙ append_assoc (slice l.buf_pos stop l.buf) _ (flatten l.io.input)

    delivered_unread :
        (u : Bytes)
        → unescape (slice l.buf_pos stop l.buf) ≡ some u
        → slice
            (stop + 1)
            l.buf_len
            (overwrite l.buf_pos (u ++ drop (length u) (slice l.buf_pos stop l.buf)) l.buf)
          ≡ slice (stop + 1) l.buf_len l.buf
    delivered_unread u e =
        let window = slice l.buf_pos stop l.buf in
        ap (take (l.buf_len - (stop + 1))) (
          drop-overwrite l.buf_pos (stop + 1) (u ++ drop (length u) window) l.buf
            (omega (arith, v.pos_le_scan, v.len_le_cap))
            (omega (
              arith,
              v.pos_le_scan,
              v.len_le_cap,
              length-unescape window e,
              length-append u (drop (length u) window),
              length-drop (length u) window,
              length-slice l.buf_pos stop l.buf (omega (arith, v.len_le_cap)),
            )))

    delivery-Follows :
        (o : Option Bytes)
        → NoEnd (slice l.buf_pos stop l.buf)
        → unescape (slice l.buf_pos stop l.buf) ≡ o
        → Follows l
            (Delivery l.buf_pos stop (record l { buf_scan = stop + 1; buf_pos = stop + 1 }) o)
    delivery-Follows none clean e = (_, _, unread_cut, clean, e)
    delivery-Follows (some u) clean e = (
      slice l.buf_pos stop l.buf,
      unread_cut
          ∙ ap (λ xs. slice l.buf_pos stop l.buf ++ slip_frame_end ∷ (xs ++ flatten l.io.input))
              (sym (delivered_unread u e)),
      clean,
      e,
    )

  -- The body of the frame whose terminator `position` finds holds no terminator.
  body-NoEnd :
      (end : ℕ)
      → position slip_frame_end (slice l.buf_scan l.buf_len l.buf) ≡ some end
      → NoEnd (slice l.buf_pos (l.buf_scan + end) l.buf)
  body-NoEnd end e =
      let (high, _, clean) =
        position-some slip_frame_end (slice l.buf_scan l.buf_len l.buf) end e in
      let n = length-slice l.buf_scan l.buf_len l.buf v.len_le_cap in
      slice-NoEnd (l.buf_scan + end) (omega (arith, n)) (λ i low below. elim (dec_lt i l.buf_scan) [
        | yes p ↦ v.scanned i low p
        | no p ↦ λ at.
            let q : l.buf_scan + (i - l.buf_scan) ≡ i = omega arith in
            position-before slip_frame_end (slice l.buf_scan l.buf_len l.buf) end (i - l.buf_scan) e
              (omega arith)
              (get_or-slice l.buf_scan l.buf_len (i - l.buf_scan) l.buf (omega (arith, n))
                ∙ rw q at)
      ])

  terminated-Follows :
      (end : ℕ)
      → position slip_frame_end (slice l.buf_scan l.buf_len l.buf) ≡ some end
      → Follows l (terminated end l)
  terminated-Follows end e =
      let (high, _, _) = position-some slip_frame_end (slice l.buf_scan l.buf_len l.buf) end e in
      let n = length-slice l.buf_scan l.buf_len l.buf v.len_le_cap in
      let stop = l.buf_scan + end in
      let found =
        sym (get_or-slice l.buf_scan l.buf_len end l.buf (omega (arith, n)))
        ∙ position-get slip_frame_end (slice l.buf_scan l.buf_len l.buf) end e in
      let p : l.buf_scan + (end + 1) ≡ stop + 1 = omega arith in
      let q : stop + 1 - 1 ≡ stop = omega arith in
      elim (Bool-cases (ltb 0 end)) [
        | inl some_bytes ↦
            unfold terminated in
            rw (some_bytes, p, q)
              (rw
                (finish_packet-unescape l.buf_pos stop
                  (record l { buf_scan = stop + 1; buf_pos = stop + 1 })
                  (omega (arith, v.pos_le_scan)) (omega (arith, n, v.len_le_cap)))
                (delivery-Follows stop (omega (arith, n)) found (omega arith) _ (body-NoEnd end e)
                  refl))
        | inr empty ↦
            let r : stop ≡ l.buf_scan = ground arith in
            unfold terminated in
            rw (empty, p)
              (inr (
                unread_cut stop (omega (arith, n)) found (omega arith)
                ∙ ap
                    (λ k.
                      slice l.buf_pos k l.buf
                      ++ slip_frame_end ∷ (slice (stop + 1) l.buf_len l.buf ++ flatten l.io.input))
                    r))
      ]

-- A turn of the loop of `recv` on a valid link, against the stream of the bytes in the buffer and then
-- in the channel. A packet that it returns is the expansion of the frame at the head of the stream,
-- and the stream goes on behind it; it panics on an invalid escape only if that frame has no expansion, on
-- too large a packet only if a frame fills the buffer, and it blocks only if the channel is empty and
-- no frame ends. A turn that goes on leaves the stream alone, or discards a frame whose terminator
-- is the next byte to be scanned.
pub recv_step-Follows : (l : ProxyLink) → IsValid l → Follows l (recv_step l)
recv_step-Follows l v =
    elim (Option-cases (position slip_frame_end (slice l.buf_scan l.buf_len l.buf))) [
      | inl e ↦ unfold recv_step in rw e (read_more-Follows l v e)
      | inr (end, e) ↦ unfold recv_step in rw e (terminated-Follows l v end e)
    ]
