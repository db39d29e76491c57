-- ===== src/Demux/Turns.antt =====
-- What a turn of the loop of `poll_fill_buf` keeps of the two channels (src/proxy/targets/demux.rs).
use farcri_rs.Prelude.{
  ℕ, zero, suc, ◌+◌, ◌*◌, ◌<◌, ◌≤◌, min, List, [], ◌∷◌, ◌++◌, length, take, ◌==◌, Bytes, ◌≡◌, refl,
  sym, ap, ap₂, subst, ◌∙◌, arith, inl, inr, Bool-cases, append_assoc, length-take, length-drop,
}
use farcri_rs.Buffer.{take-append_le, take-take_le}
use farcri_rs.Slip.{Fill, buffer, fill_error, fill_pending}
use farcri_rs.Demux.{
  State, header, primary, log, delim, channel_primary, channel_log, LogWrite, wrote, write_error,
  write_pending, Demux, again, consume_inner, consumed, payload_len, header_turn, log_turn,
  payload_turn, buffer_turn, turn, bytes_of, measure,
}
use farcri_rs.Demux.Split.{
  primary_of, log_of, primary_of-take, log_of-take, payload_len_other, payload_len-le, kind_of,
  next_state, mark, primary_byte, log_byte,
}
use farcri_rs.Demux.Keeps.{
  primary_left, log_left, NoErrors, Keeps-refl, IsPayload, Turns, Ends-put_back, Ends-consume,
  header_left_le, bytes_of-put_back, bytes_of-consume,
}

module _ (b : ℕ) (bs : Bytes) (r : List Fill) (w : List LogWrite) (out : Bytes) where
  abbrev at : State → Demux
  at s = record { inner = buffer (b ∷ bs) ∷ r; st = s; writes = w; log_out = out }

  -- A byte that is a mark is consumed.
  marked :
      (s s' : State)
      → kind_of s b ≡ mark
      → next_state s b ≡ s'
      → Turns (at s) (again (record (consumed 1 (at s)) { st = s' }))
  unfolding measure
  marked s s' e n =
      let same = bytes_of-put_back bs r in
      let rest = bs ++ bytes_of r in
      (
        record {
          primary =
              ap (primary_of s') same
              ∙ sym (ap₂ (λ x y. primary_byte x b ++ primary_of y rest) e n);
          log = λ h.
              ap (λ x. out ++ log_of s' x) same
              ∙ sym (ap₂ (λ x y. out ++ (log_byte x b ++ log_of y rest)) e n);
          errors = λ h. h;
          ends = λ h. Ends-put_back bs r h;
        },
        omega (arith, ap length same, header_left_le s'),
      )

  header_turn-Turns : Turns (at header) (again (header_turn b (at header)))
  unfolding header_turn measure
  header_turn-Turns = elim (Bool-cases (b == channel_primary)) [
    | inl e ↦
        subst (λ d. Turns (at header) (again d)) (rw e refl)
          (marked header primary (rw e refl) (rw e refl))
    | inr e ↦ elim (Bool-cases (b == channel_log)) [
      | inl f ↦
          subst (λ d. Turns (at header) (again d)) (rw (e, f) refl)
            (marked header log (rw (e, f) refl) (rw (e, f) refl))
      | inr f ↦ elim (Bool-cases (b == delim)) [
        | inl g ↦
            subst (λ d. Turns (at header) (again d)) (rw (e, f, g) refl)
              (marked header header (rw (e, f, g) refl) (rw (e, f, g) refl))
        | inr g ↦
            let q : record (at header) { st = primary } ≡ header_turn b (at header) =
              rw (e, f, g) refl in
            subst (λ d. Turns (at header) (again d)) q
              (
                record {
                  primary = rw (e, f, g) refl;
                  log = λ h. rw (e, f, g) refl;
                  errors = λ h. h;
                  ends = λ h. h;
                },
                omega arith,
              )
      ]
    ]
  ]

  -- Bytes of a payload go to the channel of the state.
  consumes :
      (k : ℕ)
      → k ≤ payload_len (b ∷ bs)
      → (primary_left (at primary) ≡ take k (b ∷ bs) ++ primary_left (consumed k (at primary)))
        × (log_left (at primary) ≡ log_left (consumed k (at primary)))
        × (log_left (at log) ≡ take k (b ∷ bs) ++ log_left (consumed k (at log)))
        × (primary_left (at log) ≡ primary_left (consumed k (at log)))
  consumes k h =
      let all = (b ∷ bs) ++ bytes_of r in
      let (short, longer) = payload_len-le (b ∷ bs) (bytes_of r) in
      let fits : k ≤ length (b ∷ bs) = omega (arith, h, short) in
      let within : k ≤ payload_len all = omega (arith, h, longer) in
      let same = sym (bytes_of-consume k (b ∷ bs) r fits) in
      let head = take-append_le k (b ∷ bs) (bytes_of r) fits in
      let (l, p, q) = log_of-take k all within in
      (
        primary_of-take k all within ∙ (λ i. head i ++ primary_of primary (same i)),
        q ∙ ap (log_of primary) same,
        l ∙ (λ i. head i ++ log_of log (same i)),
        p ∙ ap (primary_of log) same,
      )

  primary-IsPayload :
      (n : ℕ) → n < payload_len (b ∷ bs) → IsPayload (take (suc n) (b ∷ bs)) (at primary)
  primary-IsPayload n h = record {
    not_empty = omega arith;
    consumes = λ k k_le.
        let size = length-take (suc n) (b ∷ bs) in
        let (p, q, l, o) = consumes k (omega (arith, h, k_le, size)) in
        (
          p
              ∙ ap (λ x. x ++ primary_left (consumed k (at primary)))
                  (sym (take-take_le k (suc n) (b ∷ bs) (omega (arith, k_le, size)))),
          q,
        );
    at_end = λ k a. Ends-consume k (b ∷ bs) r a;
  }

  less :
      (k : ℕ) (v : List LogWrite)
      → k ≤ length (b ∷ bs)
      → length v < length w
      → 2 * length (bytes_of (consume_inner k (buffer (b ∷ bs) ∷ r))) + length v + 0
        < 2 * length ((b ∷ bs) ++ bytes_of r) + length w + 0
  less k v h f = omega (
    arith,
    ap length (bytes_of-consume k (b ∷ bs) r h),
    length-drop k ((b ∷ bs) ++ bytes_of r),
    f,
  )

  -- What the standard output takes is the head of the log.
  log_turn-Turns :
      (v : List LogWrite) (n : ℕ)
      → w ≡ v
      → n < payload_len (b ∷ bs)
      → Turns (at log) (log_turn v (take (suc n) (b ∷ bs)) (at log))
  unfolding log_turn measure
  log_turn-Turns [] n e h = Keeps-refl (at log)
  log_turn-Turns (write_pending ∷ v) n e h = record {
    primary = refl;
    log = λ a. refl;
    errors = λ a. subst NoErrors e a;
    ends = λ a. a;
  }
  log_turn-Turns (write_error ∷ v) n e h =
      let size = length-take (suc n) (b ∷ bs) in
      let k = length (take (suc n) (b ∷ bs)) in
      let (short, longer) = payload_len-le (b ∷ bs) (bytes_of r) in
      let (p, q, l, o) = consumes k (omega (arith, size, h)) in
      (
        record {
          primary = sym o;
          log = λ a. absurd (subst NoErrors e a);
          errors = λ a. absurd (subst NoErrors e a);
          ends = λ a. Ends-consume k (b ∷ bs) r a;
        },
        less k v (omega (arith, size, short)) (omega (arith, ap length e)),
      )
  log_turn-Turns (wrote m ∷ v) n e h =
      let size = length-take (suc n) (b ∷ bs) in
      let k = min m (length (take (suc n) (b ∷ bs))) in
      let (short, longer) = payload_len-le (b ∷ bs) (bytes_of r) in
      let (p, q, l, o) = consumes k (omega (arith, size, h)) in
      let left = log_left (consumed k (at log)) in
      (
        record {
          primary = sym o;
          log = λ a.
              append_assoc out (take k (take (suc n) (b ∷ bs))) left
              ∙ ap (λ x. out ++ (x ++ left)) (take-take_le k (suc n) (b ∷ bs) (omega (arith, size)))
              ∙ ap (λ x. out ++ x) (sym l);
          errors = λ a. subst NoErrors e a;
          ends = λ a. Ends-consume k (b ∷ bs) r a;
        },
        less k v (omega (arith, size, short)) (omega (arith, ap length e)),
      )

  log_payload-Turns :
      (n : ℕ) → payload_len (b ∷ bs) ≡ n → Turns (at log) (payload_turn log n (b ∷ bs) (at log))
  unfolding payload_turn
  log_payload-Turns zero e = elim (Bool-cases (b == delim)) [
    | inl f ↦ marked log header (rw f refl) (rw f refl)
    | inr f ↦ absurd (omega (arith, e, payload_len_other b bs f))
  ]
  log_payload-Turns (suc n) e = log_turn-Turns w n refl (omega (arith, e))

  payload-Turns :
      (n : ℕ)
      → payload_len (b ∷ bs) ≡ n
      → Turns (at primary) (payload_turn primary n (b ∷ bs) (at primary))
  unfolding payload_turn
  payload-Turns zero e = elim (Bool-cases (b == delim)) [
    | inl f ↦ marked primary header (rw f refl) (rw f refl)
    | inr f ↦ absurd (omega (arith, e, payload_len_other b bs f))
  ]
  payload-Turns (suc n) e = (Keeps-refl (at primary), primary-IsPayload n (omega (arith, e)))

  buffer_turn-Turns : (s : State) → Turns (at s) (buffer_turn s b bs (at s))
  unfolding buffer_turn
  buffer_turn-Turns header = header_turn-Turns
  buffer_turn-Turns primary = payload-Turns (payload_len (b ∷ bs)) refl
  buffer_turn-Turns log = log_payload-Turns (payload_len (b ∷ bs)) refl

pub turn-Turns :
    (r : List Fill) (s : State) (w : List LogWrite) (out : Bytes)
    → Turns
        (record { inner = r; st = s; writes = w; log_out = out })
        (turn r (record { inner = r; st = s; writes = w; log_out = out }))
unfolding turn
turn-Turns [] s w out = Keeps-refl _
turn-Turns (fill_pending ∷ r) s w out = record {
  primary = refl;
  log = λ h. refl;
  errors = λ h. h;
  ends = λ h. h;
}
turn-Turns (fill_error e ∷ r) s w out = record {
  primary = refl;
  log = λ h. refl;
  errors = λ h. h;
  ends = λ h. h;
}
turn-Turns (buffer [] ∷ r) s w out = tt
turn-Turns (buffer (b ∷ bs) ∷ r) s w out = buffer_turn-Turns b bs r w out s
