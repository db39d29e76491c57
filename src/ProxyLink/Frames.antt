-- ===== src/ProxyLink/Frames.antt =====
-- Whole frames through `recv`, and the frame that it loses.
use farcri_rs.Prelude.{
  ℕ, suc, ◌+◌, ◌-◌, ◌<◌, none, some, [], ◌∷◌, ◌++◌, length, take, drop, lt→ltb, Bytes, ◌≡◌, ◌≢◌,
  refl, sym, ap, ◌∙◌, arith, length-append, take-append_exact,
}
use farcri_rs.Buffer.{slice, length-slice, take-take_le}
use farcri_rs.ProxyLink.{
  slip_frame_end, ProxyLink, position, again, packet, terminated, recv_step, recv,
}
use farcri_rs.ProxyLink.Unescape.{unescape, unescape-escape}
use farcri_rs.ProxyLink.Recv.{IsValid, delivered, Delivery, finish_packet-unescape}
use farcri_rs.Slip.{escape_byte}
use farcri_rs.Slip.RoundTrip.{escape}

position_past :
    (x : ℕ) (xs ys : Bytes) → position x xs ≡ none → position x (xs ++ x ∷ ys) ≡ some (length xs)
unfolding position
position_past x [] ys h = ground arith
position_past x (b ∷ xs) ys h = ground (arith, position_past x xs ys)

position-none-append :
    (x : ℕ) (xs ys : Bytes)
    → position x xs ≡ none
    → position x ys ≡ none
    → position x (xs ++ ys) ≡ none
unfolding position
position-none-append x [] ys h k = k
position-none-append x (b ∷ xs) ys h k = ground (arith, position-none-append x xs ys)

-- An escaped body holds no terminator.
escape-NoEnd : (bs : Bytes) → position slip_frame_end (escape bs) ≡ none
escape-NoEnd [] = unfold position in refl
escape-NoEnd (b ∷ bs) =
    position-none-append slip_frame_end (escape_byte b) (escape bs) (byte_lem b) (escape-NoEnd bs)
  where
    byte_lem : (b : ℕ) → position slip_frame_end (escape_byte b) ≡ none
    byte_lem b = unfold position escape_byte in ground arith

escape_pos : (bs : Bytes) → bs ≢ [] → 0 < length (escape bs)
escape_pos [] h = absurd (h refl)
escape_pos (b ∷ bs) h = unfold escape_byte in ground arith

-- On a valid link with the frame of a packet that is not empty at the head of the buffer, nothing of
-- it scanned yet, `recv` returns the packet, and goes on behind the frame next time.
pub recv-escape :
    (f : ℕ) (l : ProxyLink) (bs rest : Bytes)
    → IsValid l
    → l.buf_scan ≡ l.buf_pos
    → bs ≢ []
    → slice l.buf_scan l.buf_len l.buf ≡ escape bs ++ slip_frame_end ∷ rest
    → let stop = l.buf_scan + length (escape bs) in
      recv (suc f) l
      ≡ some (
          packet bs
            (delivered l.buf_pos stop (record l { buf_scan = stop + 1; buf_pos = stop + 1 }) bs))
recv-escape f l bs rest v fresh ne frame =
    let n = length-slice l.buf_scan l.buf_len l.buf v.len_le_cap in
    let m = ap length frame ∙ length-append (escape bs) (slip_frame_end ∷ rest) in
    let found =
      ap (position slip_frame_end) frame
      ∙ position_past slip_frame_end (escape bs) rest (escape-NoEnd bs) in
    let stop = l.buf_scan + length (escape bs) in
    let p : l.buf_scan + (length (escape bs) + 1) ≡ stop + 1 = omega arith in
    let q : stop + 1 - 1 ≡ stop = omega arith in
    let l' = record l { buf_scan = stop + 1; buf_pos = stop + 1 } in
    let body : slice l.buf_pos stop l.buf ≡ escape bs =
      (let k : stop - l.buf_pos ≡ length (escape bs) = omega arith in
        λ i. take (k i) (drop (sym fresh i) l.buf))
      ∙ sym (
          take-take_le (length (escape bs)) (l.buf_len - l.buf_scan) (drop l.buf_scan l.buf)
            (omega (arith, n, m)))
      ∙ ap (take (length (escape bs))) frame
      ∙ take-append_exact (escape bs) (slip_frame_end ∷ rest) in
    let step : recv_step l ≡ packet bs (delivered l.buf_pos stop l' bs) =
      unfold recv_step terminated in
      rw (found, lt→ltb _ _ (escape_pos bs ne), p, q)
        (finish_packet-unescape l.buf_pos stop l' (omega arith) (omega (arith, v.len_le_cap))
          ∙ ap (Delivery l.buf_pos stop l') (ap unescape body ∙ unescape-escape bs)) in
    unfold recv in rw step

-- A terminator that is the first byte behind `buf_scan` is taken for an empty frame: the turn goes
-- on behind it, and the bytes in `buf[buf_pos..buf_scan]` are never decoded.
pub recv_step_loses :
    (l : ProxyLink) (rest : Bytes)
    → slice l.buf_scan l.buf_len l.buf ≡ slip_frame_end ∷ rest
    → recv_step l ≡ again (record l { buf_scan = l.buf_scan + 1; buf_pos = l.buf_scan + 1 })
unfolding recv_step terminated
recv_step_loses l rest e =
    let found =
      ap (position slip_frame_end) e
      ∙ position_past slip_frame_end [] rest (unfold position in refl) in
    rw found
