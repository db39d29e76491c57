-- ===== src/ProxyLink/Escape.antt =====
-- The in-place escaping in `send` writes the frame of the encoded message, and the host reads it.
use native.Mathlib.Nat.{zero-add}
use farcri_rs.Prelude.{
  ℕ, zero, suc, ◌+◌, ◌-◌, ◌<◌, ◌≤◌, Bool-cases, false, inl, inr, Option, none, some, [], ◌∷◌, ◌++◌,
  length, get_or, set, drop, ltb, leb, lt→ltb, Bytes, ◌≡◌, refl, sym, ap, ◌∙◌, arith, append_assoc,
  length-append, length-set, drop-set, drop-write, length-write, le→leb, drop-write, length-write,
  take-set_of_le, take-append_exact, take-length, drop-length,
}
use farcri_rs.Buffer.{overwrite}
use farcri_rs.ProxyLink.{
  slip_frame_end, usize_mod, io_write, num_extra_bytes, frame_sent, escape_turn, escape_loop,
  wrapping_pred, send, ProxyLink,
}
use farcri_rs.Slip.RoundTrip.{escape}
use farcri_rs.ProxyLink.EscapeTurn.{length-escape, Inv, escape_turn-Inv}

wrapping_pred_zero : wrapping_pred 0 ≡ usize_mod - 1
wrapping_pred_zero = refl

wrapping_pred-suc : (k : ℕ) → suc k < usize_mod → wrapping_pred (suc k) ≡ k
wrapping_pred-suc k h = omega arith

escape_loop-suc :
    (f : ℕ) (buf : Bytes) (w r : ℕ)
    → r < w
    → let (buf', w') = escape_turn buf w (get_or buf r 0) in
      escape_loop (suc f) buf w r ≡ escape_loop f buf' w' (wrapping_pred r)
escape_loop-suc f buf w r h = unfold escape_loop in rw (lt→ltb r w h)

escape_loop_end :
    (f : ℕ) (buf : Bytes) (w r : ℕ) → w ≡ 0 → escape_loop (suc f) buf w r ≡ some (drop w buf)
unfolding escape_loop
escape_loop_end f buf w r h = rw h (ground arith)

escape_loop-Inv :
    (bs tail : Bytes) (k f : ℕ) (buf : Bytes) (w : ℕ)
    → k < f
    → k < usize_mod
    → Inv bs tail k buf w
    → escape_loop f buf w (wrapping_pred k) ≡ some (escape bs ++ tail)
escape_loop-Inv bs tail k zero buf w h m v = elim h [ ]
escape_loop-Inv bs tail zero (suc f) buf w h m v =
    escape_loop_end f buf w _ (v.window ∙ unfold num_extra_bytes in refl) ∙ ap some v.done
escape_loop-Inv bs tail (suc k) (suc f) buf w h m v = rw (wrapping_pred-suc k m) (
    escape_loop-suc f buf w k (omega (arith, v.window))
    ∙ escape_loop-Inv bs tail k f _ _ (omega arith) (omega arith)
        (escape_turn-Inv bs tail k buf w v))

-- The frame that `send` writes for an encoded message.
abbrev pub frame_of : Bytes → Bytes
frame_of bs = escape bs ++ slip_frame_end ∷ []

-- What `send` leaves: the frame written after all that was written before, the frame at the head
-- of the buffer, and no byte that is yet to be read.
pub record Sent (bs : Bytes) (l l' : ProxyLink) : Type 0 where
  pub written : l'.io ≡ io_write (frame_of bs) l.io
  pub buffer : l'.buf ≡ frame_of bs ++ drop (length (frame_of bs)) l.buf
  pub emptied : (l'.buf_pos ≡ 0) × (l'.buf_len ≡ 0) × (l'.buf_scan ≡ 0)

length-frame_of : (bs : Bytes) → length (frame_of bs) ≡ length bs + num_extra_bytes bs + 1
length-frame_of bs =
    omega (arith, length-append (escape bs) (slip_frame_end ∷ []), length-escape bs)

-- The buffer as the encoder leaves it, and what stands behind the window.
module _ (bs buf : Bytes) where
  abbrev encoded_in : Bytes
  encoded_in = bs ++ drop (length bs) buf

  abbrev rest_of : Bytes
  rest_of = drop (length (frame_of bs)) buf

  start-Inv :
      length (frame_of bs) ≤ length buf
      → Inv bs
          (slip_frame_end ∷ rest_of)
          (length bs)
          (set encoded_in (length bs + num_extra_bytes bs) slip_frame_end)
          (length bs + num_extra_bytes bs)
  start-Inv fits =
      let w = length bs + num_extra_bytes bs in
      let n = length-frame_of bs in
      let len = length-write bs buf (omega (arith, n)) in
      let p : suc w ≡ length (frame_of bs) = omega (arith, n) in
      record {
        within = omega arith;
        window = ap (λ xs. length bs + num_extra_bytes xs) (sym (take-length bs));
        inside = omega (arith, n, len, length-set encoded_in w slip_frame_end);
        todo =
            take-set_of_le (length bs) w encoded_in slip_frame_end (omega arith)
            ∙ take-append_exact bs (drop (length bs) buf)
            ∙ sym (take-length bs);
        done =
            drop-set w encoded_in slip_frame_end (omega (arith, n, len))
            ∙ ap (λ xs. slip_frame_end ∷ xs)
                (drop-write (suc w) bs buf (omega arith) ∙ ap (λ k. drop k buf) p)
            ∙ ap (λ xs. escape xs ++ slip_frame_end ∷ rest_of) (sym (drop-length bs));
      }

  escaped_loop :
      length (frame_of bs) ≤ length buf
      → length buf < usize_mod
      → escape_loop
          (suc (length bs))
          (set (overwrite 0 bs buf) (length bs + num_extra_bytes bs + 1 - 1) slip_frame_end)
          (length bs + num_extra_bytes bs + 1 - 1)
          (wrapping_pred (length bs))
        ≡ some (frame_of bs ++ rest_of)
  escaped_loop fits small =
      let n = length-frame_of bs in
      let p : length bs + num_extra_bytes bs + 1 - 1 ≡ length bs + num_extra_bytes bs =
        omega arith in
      rw (p, zero-add)
        (escape_loop-Inv bs (slip_frame_end ∷ rest_of) (length bs) (suc (length bs)) _ _
            (omega arith) (omega (arith, n)) (start-Inv fits)
          ∙ ap some (sym (append_assoc (escape bs) (slip_frame_end ∷ []) rest_of)))

-- The link when `send` returns, with `rest` in the buffer behind the frame.
abbrev sent : Bytes → Bytes → ProxyLink → ProxyLink
sent xs rest l = record {
  io = io_write xs l.io;
  buf = xs ++ rest;
  buf_pos = 0;
  buf_len = 0;
  buf_scan = 0;
}

frame_sent_lem :
    (n : ℕ) (l : ProxyLink) (xs ys : Bytes) {o : Option Bytes}
    → o ≡ some (xs ++ ys)
    → n ≡ length xs
    → frame_sent n l o ≡ some (sent xs ys l)
unfolding frame_sent
frame_sent_lem n l xs ys e p = rw (e, p, take-append_exact xs ys)

-- If the frame fits into the buffer, whose length is a `usize`, `send` writes it behind what was
-- written before, leaves it at the head of the buffer, and drops what was still to be received.
pub send-Sent :
    (bs : Bytes) (l : ProxyLink)
    → length (frame_of bs) ≤ length l.buf
    → length l.buf < usize_mod
    → (l' : ProxyLink) × (send bs l ≡ some l') × Sent bs l l'
send-Sent bs l fits small =
    let n = length-frame_of bs in
    let a : length bs + num_extra_bytes bs + 1 < usize_mod = omega (arith, n) in
    let b : length bs + num_extra_bytes bs + 1 ≤ length l.buf = omega (arith, n) in
    let run =
      frame_sent_lem _ l (frame_of bs) (rest_of bs l.buf) (escaped_loop bs l.buf fits small)
        (sym n) in
    (
      sent (frame_of bs) (rest_of bs l.buf) l,
      unfold send in rw (lt→ltb _ _ a, le→leb _ _ b) run,
      record { written = refl; buffer = refl; emptied = (refl, refl, refl) },
    )

-- If the frame of the message is longer than the buffer, `send` panics.
pub send_too_large :
    (bs : Bytes) (l : ProxyLink) → length l.buf < length (frame_of bs) → send bs l ≡ none
send_too_large bs l h =
    let p : leb (length bs + num_extra_bytes bs + 1) (length l.buf) ≡ false =
      ground (arith, length-frame_of bs) in
    elim (Bool-cases (ltb (length bs + num_extra_bytes bs + 1) usize_mod)) [
      | inl q ↦ unfold send in rw (p, q)
      | inr q ↦ unfold send in rw (p, q)
    ]
