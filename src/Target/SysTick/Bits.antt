-- ===== src/Target/SysTick/Bits.antt =====
-- Complements and disjoint disjunctions of binary numbers, for src/target/cortex_m_time.rs.
use Prim.Native.Nat.{bit_or, bit_xor, digits, differ, bit_or-bitwise, bit_xor-bitwise}
use farcri_rs.Prelude.{
  ℕ, zero, suc, ◌+◌, ◌*◌, ◌-◌, ◌/◌, ◌%◌, ◌≤◌, max, ◌≡◌, refl, arith, ap, ap₂, sym, ◌∙◌,
}

-- `n` ones.
abbrev pub ones : ℕ → ℕ
ones zero = 0
ones (suc n) = ones n * 2 + 1

-- `x << n`
abbrev pub shl : ℕ → ℕ → ℕ
shl x zero = x
shl x (suc n) = shl x n * 2

module _ (f : ℕ → ℕ → ℕ) (unit : (y : ℕ) → f 0 y ≡ y) where
  abbrev of_digits : ℕ → ℕ → ℕ → ℕ
  of_digits n a b = digits (λ b. b) f n a b

  enough : (n m a b : ℕ) → a ≤ n → a ≤ m → of_digits n a b ≡ of_digits m a b
  enough zero zero a b p q = refl
  enough zero (suc m) zero b p q = refl
  enough zero (suc m) (suc a) b p q = absurd (omega arith)
  enough (suc n) zero zero b p q = refl
  enough (suc n) zero (suc a) b p q = absurd (omega arith)
  enough (suc n) (suc m) zero b p q = refl
  enough (suc n) (suc m) (suc a) b p q =
      ap (λ x. x * 2 + f (suc a % 2) (b % 2))
        (enough n m (suc a / 2) (b / 2) (omega arith) (omega arith))

  step : (a b : ℕ) → of_digits a a b ≡ of_digits (a / 2) (a / 2) (b / 2) * 2 + f (a % 2) (b % 2)
  step zero b = omega (arith, unit (b % 2))
  step (suc a) b =
      ap (λ x. x * 2 + f (suc a % 2) (b % 2))
        (enough a (suc a / 2) (suc a / 2) (b / 2) (omega arith) (omega arith))

xor_step : (a b : ℕ) → bit_xor a b ≡ bit_xor (a / 2) (b / 2) * 2 + differ (a % 2) (b % 2)
xor_step a b =
    bit_xor-bitwise a b
    ∙ step differ (λ y. refl) a b
    ∙ ap (λ x. x * 2 + differ (a % 2) (b % 2)) (sym (bit_xor-bitwise (a / 2) (b / 2)))

or_step : (a b : ℕ) → bit_or a b ≡ bit_or (a / 2) (b / 2) * 2 + max (a % 2) (b % 2)
or_step a b =
    bit_or-bitwise a b
    ∙ step max (λ y. omega arith) a b
    ∙ ap (λ x. x * 2 + max (a % 2) (b % 2)) (sym (bit_or-bitwise (a / 2) (b / 2)))

differ_one : (d : ℕ) → d ≤ 1 → differ d 1 ≡ 1 - d
differ_one zero h = refl
differ_one (suc zero) h = refl
differ_one (suc (suc d)) h = absurd (omega arith)

-- The exclusive disjunction with ones is the complement.
pub bit_xor-ones : (n a : ℕ) → a ≤ ones n → bit_xor a (ones n) ≡ ones n - a
bit_xor-ones zero a h = let q : a ≡ 0 = omega (arith, h) in ap (λ y. bit_xor y 0) q ∙ (omega arith)
bit_xor-ones (suc n) a h =
    let p : (ones n * 2 + 1) / 2 ≡ ones n = omega arith in
    let q : (ones n * 2 + 1) % 2 ≡ 1 = omega arith in
    let ih = bit_xor-ones n (a / 2) (omega arith) in
    omega (
      arith,
      xor_step a (ones n * 2 + 1) ∙ ap₂ (λ x y. bit_xor (a / 2) x * 2 + differ (a % 2) y) p q,
      ih,
      differ_one (a % 2) (omega arith),
    )

-- The disjunction of numbers without a common digit is their sum.
pub bit_or-shl : (n a x : ℕ) → a ≤ ones n → bit_or a (shl x n) ≡ a + shl x n
bit_or-shl zero a x h =
    let q : a ≡ 0 = omega (arith, h) in
    ap (λ y. bit_or y x) q ∙ bit_or-bitwise 0 x ∙ (omega (arith, q))
bit_or-shl (suc n) a x h =
    let p : shl x n * 2 / 2 ≡ shl x n = omega arith in
    let q : shl x n * 2 % 2 ≡ 0 = omega arith in
    omega (
      arith,
      or_step a (shl x n * 2) ∙ ap₂ (λ y z. bit_or (a / 2) y * 2 + max (a % 2) z) p q,
      bit_or-shl n (a / 2) x (omega arith),
    )
