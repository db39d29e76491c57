-- ===== src/Proxy/CyclesFormatter/Texts.antt =====
-- How `format_value` and `format_throughput` of src/proxy/formatter.rs write a value.
use farcri_rs.Prelude.{
  ℕ, suc, ◌+◌, ◌-◌, ◌^◌, ◌<◌, max, Bool, true, false, List, [], ◌∷◌, ◌++◌, length, codes, replicate,
  Bytes, ◌≡◌, refl, ap₂, ◌∙◌, arith, inl, inr, Bool-cases, append_assoc,
}
use farcri_rs.Protocol.{Throughput, bytes, elements}
use farcri_rs.Proxy.CcProtocol.{Floats}
use farcri_rs.Proxy.CyclesFormatter.{
  Numbers, short, shown, format_value, format_throughput, cycles_formatter,
}
use farcri_rs.Proxy.CyclesFormatter.Units.{
  unit_name, Fits, IsScaled, reached, none_reached, thousandth, below_value, below_rate, rate,
  RateIsScaled, scale_values-IsScaled, scale_throughputs-IsScaled,
}

module _ (fl : Floats) (nu : Numbers fl) where
  -- Four decimals below ten, and one less for each further digit before the point, down to none.
  abbrev pub HasDecimals : fl.F64 → ℕ → Type 0
  HasDecimals x decimals =
      (digits : ℕ) × (decimals + digits ≡ 4)
      × ((j : ℕ) → j < digits → nu.lt x (fl.of_u64 (10 ^ suc j)) ≡ false)
      × (digits < 4 → nu.lt x (fl.of_u64 (10 ^ suc digits)) ≡ true)

  -- The value, scaled to its own magnitude, with its decimals, behind blanks up to six places, and then a
  -- blank and the unit.
  pub record IsText (pad name : Bytes) (below : ℕ → Bool) (scale : ℕ → fl.F64 → fl.F64)
      (value : fl.F64) (text : Bytes) : Type 0 where
    pub magnitude : ℕ
    pub fits : Fits below magnitude
    pub decimals : ℕ
    pub rounds : HasDecimals (scale magnitude value) decimals
    pub blanks : ℕ
    pub fills :
        blanks + length (nu.fixed decimals (scale magnitude value))
        ≡ max 6 (length (nu.fixed decimals (scale magnitude value)))
    pub writes :
        text
        ≡ replicate blanks b' '
          ++ (nu.fixed decimals (scale magnitude value) ++ (b' ' ∷ unit_name pad name magnitude))

  below_power : fl.F64 → ℕ → Bool
  below_power x j = nu.lt x (fl.of_u64 (10 ^ suc j))

  short_lem : (x : fl.F64) → (k : ℕ) × HasDecimals x k × (short fl nu x ≡ nu.fixed k x)
  unfolding short below_power
  short_lem x =
      let r0 = none_reached (below_power x) in
      elim (Bool-cases (nu.lt x (fl.of_u64 10))) [
        | inl e ↦ (4, (0, omega arith, r0, λ h. e), rw e refl)
        | inr e0 ↦
            let r1 = reached (below_power x) 0 r0 e0 in
            elim (Bool-cases (nu.lt x (fl.of_u64 100))) [
              | inl e ↦ (3, (1, omega arith, r1, λ h. e), rw (e0, e) refl)
              | inr e1 ↦
                  let r2 = reached (below_power x) 1 r1 e1 in
                  elim (Bool-cases (nu.lt x (fl.of_u64 1000))) [
                    | inl e ↦ (2, (2, omega arith, r2, λ h. e), rw (e0, e1, e) refl)
                    | inr e2 ↦
                        let r3 = reached (below_power x) 2 r2 e2 in
                        elim (Bool-cases (nu.lt x (fl.of_u64 10000))) [
                          | inl e ↦ (1, (3, omega arith, r3, λ h. e), rw (e0, e1, e2, e) refl)
                          | inr e3 ↦ (
                            0,
                            (
                              4,
                              omega arith,
                              reached (below_power x) 3 r3 e3,
                              λ h. absurd (omega (arith, h)),
                            ),
                            rw (e0, e1, e2, e3) refl,
                          )
                        ]
                  ]
            ]
      ]

  shown-IsText :
      (pad name : Bytes) (below : ℕ → Bool) (scale : ℕ → fl.F64 → fl.F64) (value : fl.F64)
      (o : Bytes × List fl.F64)
      → IsScaled pad name below scale (value ∷ []) o
      → IsText pad name below scale value (shown fl nu o)
  unfolding shown
  shown-IsText pad name below scale value (unit, values) s =
      let x = scale s.magnitude value in
      let (k, rounds, e) = short_lem x in
      let places = 6 - length (nu.fixed k x) in
      record {
        magnitude = s.magnitude;
        fits = s.fits;
        decimals = k;
        rounds = rounds;
        blanks = places;
        fills = omega arith;
        writes =
            ap₂ (λ u vs. shown fl nu (u, vs)) s.unit s.scaled
            ∙ rw e (
                append_assoc (replicate places b' ') (nu.fixed k x)
                  (b' ' ∷ unit_name pad name s.magnitude));
      }

  abbrev pub RateIsText : fl.F64 → Throughput → Bytes → Type 0
  RateIsText value (bytes n) text =
      IsText (codes "  ") (codes "cycles/B") (below_rate fl nu value (fl.of_u64 n))
        (rate fl nu (fl.of_u64 n)) value text
  RateIsText value (elements n) text =
      IsText (codes " ") (codes "cycles/elem") (below_rate fl nu value (fl.of_u64 n))
        (rate fl nu (fl.of_u64 n)) value text

  rate-IsText :
      (value : fl.F64) (tp : Throughput) (o : Bytes × List fl.F64)
      → RateIsScaled fl nu value tp (value ∷ []) o
      → RateIsText value tp (shown fl nu o)
  rate-IsText value (bytes n) o s = shown-IsText _ _ _ _ value o s
  rate-IsText value (elements n) o s = shown-IsText _ _ _ _ value o s

  -- A value, and a throughput of it, is written with the unit of the least magnitude that fits it, scaled to
  -- that: the number with four decimals below ten and one less for each further digit before the point, down
  -- to none, behind blanks up to six places, and then a blank and the unit.
  pub formatter-IsText :
      (value : fl.F64) (tp : Throughput)
      → IsText []
          (codes "cycles")
          (below_value fl nu value)
          (λ k v. fl.multiply v (thousandth fl nu k))
          value
          ((cycles_formatter fl nu).value_text value)
        × RateIsText value tp ((cycles_formatter fl nu).throughput_text tp value)
  unfolding cycles_formatter format_value format_throughput
  formatter-IsText value tp = (
    shown-IsText _ _ _ _ value _ (scale_values-IsScaled fl nu value (value ∷ [])),
    rate-IsText value tp _ (scale_throughputs-IsScaled fl nu value tp (value ∷ [])),
  )
