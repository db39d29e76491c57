-- ===== src/ProxyLink/EscapeTurn.antt =====
-- One turn of the loop of `send` of src/bencher/proxylink.rs, which escapes in place.
use farcri_rs.Prelude.{
  ℕ, zero, suc, ◌+◌, ◌-◌, ◌≤◌, Bool-cases, true, false, inl, inr, [], ◌∷◌, ◌++◌, length, get_or,
  set, take, drop, ltb, ◌==◌, Bytes, ◌≡◌, sym, ap, ◌∙◌, arith, append_assoc, length-set,
  drop-eq-cons, drop-set, drop-set-set, subst, take-set_of_le, take-suc, get_or-take, take-take-suc,
}
use farcri_rs.ProxyLink.{slip_frame_esc, escape_code, num_extra_bytes, escape_turn}
use farcri_rs.Slip.{escape_byte}
use farcri_rs.Slip.RoundTrip.{escape}

num_extra_bytes-append :
    (xs ys : Bytes) → num_extra_bytes (xs ++ ys) ≡ num_extra_bytes xs + num_extra_bytes ys
unfolding num_extra_bytes
num_extra_bytes-append [] ys = omega arith
num_extra_bytes-append (x ∷ xs) ys = omega (arith, num_extra_bytes-append xs ys)

-- The escaped body is as long as `send` computes.
pub length-escape : (bs : Bytes) → length (escape bs) ≡ length bs + num_extra_bytes bs
unfolding num_extra_bytes escape_byte
length-escape [] = omega arith
length-escape (b ∷ bs) = ground (arith, length-escape bs)

-- The state of the loop with `k` bytes of `bs` still to be escaped: they stand at the head of the
-- buffer, their escaped form will just fill the window, and the rest stands escaped behind it.
pub record Inv (bs tail : Bytes) (k : ℕ) (buf : Bytes) (w : ℕ) : Type 0 where
  pub within : k ≤ length bs
  pub window : w ≡ k + num_extra_bytes (take k bs)
  pub inside : w ≤ length buf
  pub todo : take k buf ≡ take k bs
  pub done : drop w buf ≡ escape (drop k bs) ++ tail

-- What the code that `escape_code` gives a byte says of it.
as_is_lem :
    (b : ℕ)
    → (escape_code b == b) ≡ true
    → (escape_byte b ≡ b ∷ []) × (num_extra_bytes (b ∷ []) ≡ 0)
unfolding escape_code escape_byte num_extra_bytes
as_is_lem b h = ground arith

escaped_lem :
    (b : ℕ)
    → (escape_code b == b) ≡ false
    → (escape_byte b ≡ slip_frame_esc ∷ escape_code b ∷ []) × (num_extra_bytes (b ∷ []) ≡ 1)
unfolding escape_code escape_byte num_extra_bytes
escaped_lem b h = ground arith

escape_turn_as_is :
    (buf : Bytes) (u b : ℕ)
    → (escape_code b == b) ≡ true
    → escape_turn buf (suc u) b ≡ (set buf u b, u)
escape_turn_as_is buf u b h = let p : suc u - 1 ≡ u = omega arith in unfold escape_turn in rw (h, p)

escape_turn_escaped :
    (buf : Bytes) (u b : ℕ)
    → (escape_code b == b) ≡ false
    → escape_turn buf (suc (suc u)) b ≡ (set (set buf u slip_frame_esc) (suc u) (escape_code b), u)
escape_turn_escaped buf u b h =
    let p : suc (suc u) - 1 ≡ suc u = omega arith in
    let q : suc (suc u) - 2 ≡ u = omega arith in
    let r : ltb (suc (suc u)) 2 ≡ false = ground arith in unfold escape_turn in rw (h, r, p, q)

module _ (bs tail : Bytes) (k : ℕ) (buf : Bytes) where
  next_todo : {w : ℕ} → Inv bs tail (suc k) buf w → take k buf ≡ take k bs
  next_todo v = sym (take-take-suc k buf) ∙ ap (take k) v.todo ∙ take-take-suc k bs

  -- The byte that the loop reads is the one that it is to escape.
  next_read : {w : ℕ} → Inv bs tail (suc k) buf w → get_or buf k 0 ≡ get_or bs k 0
  next_read v =
      sym (get_or-take (suc k) k buf 0 (omega arith))
      ∙ ap (λ xs. get_or xs k 0) v.todo
      ∙ get_or-take (suc k) k bs 0 (omega arith)

  next_window :
      {w : ℕ}
      → Inv bs tail (suc k) buf w
      → w ≡ k + num_extra_bytes (take k bs) + suc (num_extra_bytes (get_or bs k 0 ∷ []))
  next_window v = omega (
    arith,
    v.window,
    ap num_extra_bytes (take-suc k bs 0 v.within),
    num_extra_bytes-append (take k bs) (get_or bs k 0 ∷ []),
  )

  next_done :
      {w : ℕ}
      → Inv bs tail (suc k) buf w
      → escape (drop k bs) ++ tail ≡ escape_byte (get_or bs k 0) ++ drop w buf
  next_done v =
      ap (λ xs. escape xs ++ tail) (drop-eq-cons k bs 0 v.within)
      ∙ append_assoc (escape_byte (get_or bs k 0)) _ tail
      ∙ ap (λ xs. escape_byte (get_or bs k 0) ++ xs) (sym v.done)

  as_is-Inv :
      (u b : ℕ)
      → Inv bs tail (suc k) buf (suc u)
      → get_or bs k 0 ≡ b
      → escape_byte b ≡ b ∷ []
      → num_extra_bytes (b ∷ []) ≡ 0
      → Inv bs tail k (set buf u b) u
  as_is-Inv u b v e plain none_extra = record {
    within = omega (arith, v.within);
    window = omega (arith, next_window v, ap (λ x. num_extra_bytes (x ∷ [])) e, none_extra);
    inside = omega (arith, v.inside, length-set buf u b);
    todo = take-set_of_le k u buf b (omega (arith, v.window)) ∙ next_todo v;
    done =
        drop-set u buf b (omega (arith, v.inside))
        ∙ ap (λ xs. xs ++ drop (suc u) buf) (sym plain ∙ ap escape_byte (sym e))
        ∙ sym (next_done v);
  }

  escaped-Inv :
      (u b c : ℕ)
      → Inv bs tail (suc k) buf (suc (suc u))
      → get_or bs k 0 ≡ b
      → escape_byte b ≡ slip_frame_esc ∷ c ∷ []
      → num_extra_bytes (b ∷ []) ≡ 1
      → Inv bs tail k (set (set buf u slip_frame_esc) (suc u) c) u
  escaped-Inv u b c v e special extra =
      let w = next_window v in
      let x = ap (λ x. num_extra_bytes (x ∷ [])) e in
      let len = length-set buf u slip_frame_esc in
      record {
        within = omega (arith, v.within);
        window = omega (arith, w, x, extra);
        inside = omega (arith, v.inside, len, length-set (set buf u slip_frame_esc) (suc u) c);
        todo =
            take-set_of_le k (suc u) (set buf u slip_frame_esc) c (omega (arith, w))
            ∙ take-set_of_le k u buf slip_frame_esc (omega (arith, w, x, extra))
            ∙ next_todo v;
        done =
            drop-set-set u buf slip_frame_esc c (omega (arith, v.inside))
            ∙ ap (λ xs. xs ++ drop (suc (suc u)) buf) (sym special ∙ ap escape_byte (sym e))
            ∙ sym (next_done v);
      }

  abbrev InvTurn : Bytes × ℕ → Type 0
  InvTurn turn = Inv bs tail k turn.0 turn.1

  pub escape_turn-Inv :
      (w : ℕ) → Inv bs tail (suc k) buf w → InvTurn (escape_turn buf w (get_or buf k 0))
  escape_turn-Inv zero v = absurd (omega (arith, v.window))
  escape_turn-Inv (suc u) v =
      let e = sym (next_read v) in
      elim (Bool-cases (escape_code (get_or buf k 0) == get_or buf k 0)) [
        | inl h ↦
            let (plain, none_extra) = as_is_lem _ h in
            subst InvTurn (sym (escape_turn_as_is buf u _ h)) (as_is-Inv u _ v e plain none_extra)
        | inr h ↦
            let (special, extra) = escaped_lem _ h in
            let w = next_window v in
            let x = ap (λ x. num_extra_bytes (x ∷ [])) e in
            let p : u ≡ suc (u - 1) = omega (arith, w, x, extra) in
            subst InvTurn
              (sym (escape_turn_escaped buf (u - 1) _ h)
                ∙ ap (λ n. escape_turn buf (suc n) (get_or buf k 0)) (sym p))
              (escaped-Inv (u - 1) _ _ (subst (λ n. Inv bs tail (suc k) buf (suc n)) p v) e special
                extra)
      ]
