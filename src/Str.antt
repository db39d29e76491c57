-- ===== src/Str.antt =====
-- UTF-8 strings: src/utils/strs.rs.
use farcri_rs.Prelude.{
  ℕ, zero, suc, ◌<◌, ◌≤◌, Bool, true, false, not, ◌&&◌, ◌||◌, Option, none, some, length, get_elem?,
  get_or, ltb, leb, if◌then◌else◌, Bytes, ◌≡◌, refl, ◌⊎◌, inl, inr, arith, Bool-cases, ltb→lt,
  lt→ltb, ap, ◌∙◌, subst, sym, [], ◌∷◌,
}

-- A byte read as an `i8` is below `-0x40` if it is one of 0x80 to 0xbf.
unfoldable pub is_utf8_continuation : ℕ → Bool
is_utf8_continuation x = leb 128 x && ltb x 192

-- The byte is there: `i` is below the length.
back_from : Option ℕ → ℕ → Option ℕ → Option ℕ
back_from none i further = none
back_from (some x) i further = if ltb 0 i && is_utf8_continuation x then further else some i

-- The loop; `none` for a panic.
unfoldable pub step_back : Bytes → ℕ → Option ℕ
unfolding back_from
step_back s zero = some 0
step_back s (suc i) = back_from (get_elem? s i) i (step_back s i)

unfoldable pub is_boundary : Bytes → ℕ → Bool
is_boundary s i = leb (length s) i || not (is_utf8_continuation (get_or s i 0))

-- `none` for a panic, of a debug assertion if the build has them, or of an index.
unfoldable pub utf8_str_prev : (debug_assertions : Bool) → Bytes → ℕ → Option ℕ
unfolding step_back is_boundary
utf8_str_prev debug_assertions s i =
    if debug_assertions && not (leb i (length s) && is_boundary s i) then none else step_back s i

-- `r` is where the last scalar before `i` begins, or the start of the string.
pub record IsPrev (s : Bytes) (i r : ℕ) : Type 0 where
  pub before : (0 < i → r < i) × (r ≤ i)
  pub inside : (j : ℕ) → r < j → j < i → is_utf8_continuation (get_or s j 0) ≡ true
  pub start : (r ≡ 0) ⊎ (is_utf8_continuation (get_or s r 0) ≡ false)

get_elem?-get_or : (s : Bytes) (i : ℕ) → i < length s → get_elem? s i ≡ some (get_or s i 0)
get_elem?-get_or [] i h = absurd (omega arith)
get_elem?-get_or (x ∷ s) zero h = refl
get_elem?-get_or (x ∷ s) (suc i) h = get_elem?-get_or s i (omega arith)

step_back-IsPrev :
    (s : Bytes) (i : ℕ) → i ≤ length s → (r : ℕ) × (step_back s i ≡ some r) × IsPrev s i r
unfolding step_back back_from
step_back-IsPrev s zero h = (
  0,
  refl,
  record {
    before = ((λ x. x), omega arith);
    inside = λ j a b. absurd (omega arith);
    start = inl refl;
  },
)
step_back-IsPrev s (suc i) h = elim (Bool-cases (ltb 0 i && is_utf8_continuation (get_or s i 0))) [
  | inl e ↦
      let (r, p, q) = step_back-IsPrev s i (omega arith) in
      let (pos, cont) = both (ltb 0 i) _ e in
      (
        r,
        rw (get_elem?-get_or s i (omega arith), e) p,
        record {
          before = ((λ _. omega (arith, q.before.1)), omega (arith, q.before.1));
          inside = λ j a b. within s i j cont (q.inside j a) (omega arith);
          start = q.start;
        },
      )
  | inr e ↦ (
    i,
    rw (get_elem?-get_or s i (omega arith), e) refl,
    record {
      before = ((λ _. omega arith), omega arith);
      inside = λ j a b. absurd (omega arith);
      start = first i _ e;
    },
  )
]
  where
    both : (a b : Bool) → (a && b) ≡ true → (a ≡ true) × (b ≡ true)
    both true true e = (refl, refl)
    both true false e = cc
    both false b e = cc

    within :
        (s : Bytes) (i j : ℕ)
        → is_utf8_continuation (get_or s i 0) ≡ true
        → (j < i → is_utf8_continuation (get_or s j 0) ≡ true)
        → j ≤ i
        → is_utf8_continuation (get_or s j 0) ≡ true
    within s i j c k h = elim (Bool-cases (ltb j i)) [
      | inl l ↦ k (ltb→lt j i l)
      | inr l ↦
          let p : j ≡ i = ground arith in
          subst (λ x. is_utf8_continuation (get_or s x 0) ≡ true) (sym p) c
    ]

    first : (i : ℕ) (b : Bool) → (ltb 0 i && b) ≡ false → (i ≡ 0) ⊎ (b ≡ false)
    first zero b e = inl refl
    first (suc i) b e =
        let p : ltb 0 (suc i) ≡ true = lt→ltb 0 (suc i) (omega arith) in
        inr (ap (λ x. x && b) (sym p) ∙ e)

-- Of a build without debug assertions, for an index up to the length of the string: `utf8_str_prev`
-- does not panic, and gives the place behind which only continuation bytes stand before the index,
-- and which is no continuation byte itself unless it is the start of the string.
pub utf8_str_prev-IsPrev :
    (s : Bytes) (i : ℕ) → i ≤ length s → (r : ℕ) × (utf8_str_prev false s i ≡ some r) × IsPrev s i r
unfolding utf8_str_prev
utf8_str_prev-IsPrev s i h = step_back-IsPrev s i h
