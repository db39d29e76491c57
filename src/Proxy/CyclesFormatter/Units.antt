-- ===== src/Proxy/CyclesFormatter/Units.antt =====
-- Which unit `CyclesFormatter` of src/proxy/formatter.rs takes, and what it makes of the values.
use native.Mathlib.Decide.{dec_lt}
use farcri_rs.Prelude.{
  Bool-cases, inl, inr, ◌∙◌, ℕ, zero, suc, ◌*◌, ◌<◌, ◌≤◌, Bool, true, false, List, [], ◌++◌, map,
  codes, if◌then◌else◌, Bytes, ◌≡◌, refl, arith, ap,
}
use farcri_rs.Protocol.{Throughput, bytes, elements}
use farcri_rs.Proxy.CcProtocol.{Floats}
use farcri_rs.Proxy.CyclesFormatter.{
  Numbers, f64, divided, cycles_formatter, scale_values, scale_throughputs, cycles_per_byte,
  cycles_per_element,
}

-- A unit's name, by its magnitude: three digits for each step. The smallest one is padded.
abbrev pub unit_name : Bytes → Bytes → ℕ → Bytes
unit_name pad name zero = pad ++ name
unit_name pad name (suc zero) = codes "K" ++ name
unit_name pad name (suc (suc zero)) = codes "M" ++ name
unit_name pad name _ = codes "G" ++ name

-- The magnitude is the least one whose upper bound is not reached, or the greatest one.
abbrev pub Fits : (ℕ → Bool) → ℕ → Type 0
Fits below k = (k ≤ 3) × ((j : ℕ) → j < k → below j ≡ false) × (k < 3 → below k ≡ true)

-- One magnitude gives the unit and the scale of all values.
pub record IsScaled {A : Type 0} (pad name : Bytes) (below : ℕ → Bool) (scale : ℕ → A → A)
    (values : List A) (o : Bytes × List A) : Type 0 where
  pub magnitude : ℕ
  pub fits : Fits below magnitude
  pub unit : o.0 ≡ unit_name pad name magnitude
  pub scaled : o.1 ≡ map (scale magnitude) values

-- The choice among four.
abbrev pub pick : {A : Type 0} → (ℕ → Bool) → (ℕ → A) → A
pick below f = if below 0 then f 0 else if below 1 then f 1 else if below 2 then f 2 else f 3

-- The bounds below the magnitude are reached.
pub reached :
    (below : ℕ → Bool) (k : ℕ)
    → ((j : ℕ) → j < k → below j ≡ false)
    → below k ≡ false
    → (j : ℕ) → j < suc k
    → below j ≡ false
reached below k h e j less = elim (dec_lt j k) [
  | yes l ↦ h j l
  | no l ↦ let p : j ≡ k = omega (arith, l, less) in ap below p ∙ e
]

pub none_reached : (below : ℕ → Bool) (j : ℕ) → j < 0 → below j ≡ false
none_reached below j h = absurd (omega (arith, h))

pub pick-Fits :
    {A : Type 0} (below : ℕ → Bool) (f : ℕ → A) → (k : ℕ) × Fits below k × (pick below f ≡ f k)
pick-Fits below f =
    let r0 = none_reached below in
    elim (Bool-cases (below 0)) [
      | inl e ↦ (0, (omega arith, r0, λ h. e), rw e refl)
      | inr e ↦
          let r1 = reached below 0 r0 e in
          elim (Bool-cases (below 1)) [
            | inl e' ↦ (1, (omega arith, r1, λ h. e'), rw (e, e') refl)
            | inr e' ↦
                let r2 = reached below 1 r1 e' in
                elim (Bool-cases (below 2)) [
                  | inl e'' ↦ (2, (omega arith, r2, λ h. e''), rw (e, e', e'') refl)
                  | inr e'' ↦ (
                    3,
                    (omega arith, reached below 2 r2 e'', λ h. absurd (omega (arith, h))),
                    rw (e, e', e'') refl,
                  )
                ]
          ]
    ]

module _ (fl : Floats) (nu : Numbers fl) where
  abbrev mul : fl.F64 → fl.F64 → fl.F64
  mul a b = fl.multiply a b

  -- A thousand to a power, as the source writes it.
  abbrev pub thousands : ℕ → fl.F64
  thousands zero = f64 fl nu 1
  thousands (suc zero) = f64 fl nu 1000
  thousands (suc (suc n)) = mul (thousands (suc n)) (f64 fl nu 1000)

  -- Ten to the power of minus `3 k`.
  abbrev pub thousandth : ℕ → fl.F64
  thousandth zero = nu.powi (f64 fl nu 10) 0
  thousandth (suc k) = nu.powi_neg (f64 fl nu 10) (3 * suc k)

  abbrev pub below_value : fl.F64 → ℕ → Bool
  below_value typical k = nu.lt typical (nu.powi (f64 fl nu 10) (3 * suc k))

  abbrev pub below_rate : fl.F64 → fl.F64 → ℕ → Bool
  below_rate typical per k = nu.lt (fl.divide typical per) (thousands (suc k))

  abbrev pub rate : fl.F64 → ℕ → fl.F64 → fl.F64
  rate per k v = fl.divide (fl.divide v per) (thousands k)

  abbrev pub RateIsScaled : fl.F64 → Throughput → List fl.F64 → Bytes × List fl.F64 → Type 0
  RateIsScaled typical (bytes n) values o =
      IsScaled (codes "  ") (codes "cycles/B") (below_rate typical (fl.of_u64 n))
        (rate (fl.of_u64 n)) values o
  RateIsScaled typical (elements n) values o =
      IsScaled (codes " ") (codes "cycles/elem") (below_rate typical (fl.of_u64 n))
        (rate (fl.of_u64 n)) values o

  pub scale_values-IsScaled :
      (typical : fl.F64) (values : List fl.F64)
      → IsScaled []
          (codes "cycles")
          (below_value typical)
          (λ k v. fl.multiply v (thousandth k))
          values
          (scale_values fl nu typical values)
  unfolding scale_values
  scale_values-IsScaled typical values =
      let (k, fits, e) =
        pick-Fits {A = fl.F64 × Bytes} (below_value typical)
          (λ k. (thousandth k, unit_name [] (codes "cycles") k)) in
      record {
        magnitude = k;
        fits = fits;
        unit = ap (λ p. p.1) e;
        scaled = ap (λ p. map (λ v. fl.multiply v p.0) values) e;
      }

  rate-IsScaled :
      (pad name : Bytes) (typical per : fl.F64) (values : List fl.F64)
      → IsScaled pad name (below_rate typical per) (rate per) values (
          divided fl nu per values
            (pick (below_rate typical per) (λ k. (thousands k, unit_name pad name k))))
  rate-IsScaled pad name typical per values =
      let (k, fits, e) =
        pick-Fits {A = fl.F64 × Bytes} (below_rate typical per)
          (λ k. (thousands k, unit_name pad name k)) in
      record {
        magnitude = k;
        fits = fits;
        unit = ap (λ p. p.1) e;
        scaled = ap (λ p. map (λ v. fl.divide (fl.divide v per) p.0) values) e;
      }

  pub scale_throughputs-IsScaled :
      (typical : fl.F64) (tp : Throughput) (values : List fl.F64)
      → RateIsScaled typical tp values (scale_throughputs fl nu typical tp values)
  unfolding scale_throughputs cycles_per_byte cycles_per_element
  scale_throughputs-IsScaled typical (bytes n) values =
      rate-IsScaled (codes "  ") (codes "cycles/B") typical (fl.of_u64 n) values
  scale_throughputs-IsScaled typical (elements n) values =
      rate-IsScaled (codes " ") (codes "cycles/elem") typical (fl.of_u64 n) values

  -- Of all values, and of a throughput alike: the unit is that of the least magnitude, in steps of a
  -- thousand, whose upper bound the typical value does not reach, or the greatest there is; and each
  -- value, of a throughput divided by the bytes or elements, is scaled by that magnitude.
  pub formatter-IsScaled :
      (typical : fl.F64) (tp : Throughput) (values : List fl.F64)
      → IsScaled []
          (codes "cycles")
          (below_value typical)
          (λ k v. fl.multiply v (thousandth k))
          values
          ((cycles_formatter fl nu).scaled typical values)
        × RateIsScaled typical tp values
            ((cycles_formatter fl nu).scaled_throughputs typical tp values)
  unfolding cycles_formatter
  formatter-IsScaled typical tp values =
      (scale_values-IsScaled typical values, scale_throughputs-IsScaled typical tp values)
