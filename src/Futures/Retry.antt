-- ===== src/Futures/Retry.antt =====
-- What `retry_on_fail` of src/utils/futures.rs calls, and what it returns.
use farcri_rs.Prelude.{
  ℕ, zero, suc, ◌+◌, ◌-◌, ◌<◌, ◌≤◌, ◌≡◌, refl, ap, subst, ◌∙◌, arith, Bool-cases, inl, inr, ◌==◌,
  ==_iff,
}
use farcri_rs.Futures.{Attempt, ok, err, attempted, retry_loop, retry_on_fail}

module _ {T E : Type 0} (f : ℕ → Attempt T E) where
  abbrev pub IsErr : Attempt T E → Type 0
  IsErr (ok x) = ⊥
  IsErr (err e) = Unit {0}

  -- A success is that of the last call made, and the first; a failure is that of the last of all
  -- calls that are allowed, which all failed. The calls are numbered from `n`.
  abbrev pub Retried : (n most : ℕ) → Attempt T E × ℕ → Type 0
  Retried n most (ok x, k) =
      (n < k) × (k ≤ n + most) × (f (k - 1) ≡ ok x) × ((j : ℕ) → n ≤ j → j < k - 1 → IsErr (f j))
  Retried n most (err e, k) =
      (k ≡ n + most) × (f (k - 1) ≡ err e) × ((j : ℕ) → n ≤ j → j < k → IsErr (f j))

  err-IsErr : (e : E) (x : Attempt T E) → x ≡ err e → IsErr x
  err-IsErr e (ok x) p = cc
  err-IsErr e (err e') p = tt

  first_failed :
      (n : ℕ) (e : E) (k : ℕ)
      → f n ≡ err e
      → ((j : ℕ) → suc n ≤ j → j < k → IsErr (f j))
      → (j : ℕ) → n ≤ j
      → j < k
      → IsErr (f j)
  first_failed n e k p later j low high = elim (Bool-cases (n == j)) [
    | inl same ↦ subst (λ i. IsErr (f i)) ((==_iff n j).0 same) (err-IsErr e (f n) p)
    | inr other ↦ later j (ground arith) high
  ]

  Retried-suc :
      (n most : ℕ) (e : E) (r : Attempt T E × ℕ)
      → f n ≡ err e
      → Retried (suc n) most r
      → Retried n (suc most) r
  Retried-suc n most e (ok x, k) p (a, b, c, d) =
      (omega arith, omega arith, c, first_failed n e (k - 1) p d)
  Retried-suc n most e (err e', k) p (a, b, c) = (omega arith, b, first_failed n e k p c)

  attempted-Retried :
      (n count : ℕ) (x : Attempt T E) (retry : ℕ → Attempt T E × ℕ)
      → f n ≡ x
      → ((c : ℕ) → suc c ≡ count → Retried (suc n) count (retry c))
      → Retried n (suc count) (attempted x n count retry)
  unfolding attempted
  attempted-Retried n count (ok x) retry p h = (
    omega arith,
    omega arith,
    (let q : suc n - 1 ≡ n = omega arith in ap f q ∙ p),
    λ j low high. absurd (omega arith),
  )
  attempted-Retried n zero (err e) retry p h = (
    omega arith,
    (let q : suc n - 1 ≡ n = omega arith in ap f q ∙ p),
    λ j low high. let q : n ≡ j = omega arith in subst (λ i. IsErr (f i)) q (err-IsErr e (f n) p),
  )
  attempted-Retried n (suc count) (err e) retry p h =
      Retried-suc n (suc count) e (retry count) p (h count refl)

  retry_loop-Retried : (n count : ℕ) → Retried n (suc count) (retry_loop f n count)
  unfolding retry_loop
  retry_loop-Retried n zero =
      attempted-Retried n zero (f n) _ refl (λ c e. absurd (omega (arith, e)))
  retry_loop-Retried n (suc count) =
      attempted-Retried n (suc count) (f n) _ refl (λ c e. retry_loop-Retried (suc n) count)

  -- `retry_on_fail` ends after at most eight calls. It returns the first success, right behind the
  -- call that gives it; it returns a failure only if all eight calls failed, and then the last one.
  pub retry_on_fail-Retried : Retried 0 8 (retry_on_fail f)
  unfolding retry_on_fail
  retry_on_fail-Retried = retry_loop-Retried 0 7
