-- ===== src/Proxy/CyclesFormatter.antt =====
-- The value formatter of src/proxy/formatter.rs: `CyclesFormatter`, an instance of `Formatter`. What it
-- does with numbers of type `f64` beyond `Floats`, and how they are written, are parameters.
pub mod Units
pub mod Texts
use farcri_rs.Prelude.{
  ℕ, ◌-◌, Bool, List, [], ◌∷◌, ◌++◌, map, length, replicate, codes, if◌then◌else◌, Bytes,
}
use farcri_rs.Protocol.{Throughput, bytes, elements}
use farcri_rs.Proxy.CcProtocol.{Floats}
use farcri_rs.Proxy.CcFront.{Formatter}

-- `powi_neg x n` is the power of `x` to `-n`; `fixed k x` is `x` with `k` decimals.
pub record Numbers (fl : Floats) : Type 0 where
  pub lt : fl.F64 → fl.F64 → Bool
  pub powi : fl.F64 → ℕ → fl.F64
  pub powi_neg : fl.F64 → ℕ → fl.F64
  pub fixed : ℕ → fl.F64 → Bytes

-- `{:>6}`
abbrev pub align_right : ℕ → Bytes → Bytes
align_right width s = replicate (width - length s) 0x20 ++ s

module _ (fl : Floats) (nu : Numbers fl) where
  abbrev pub f64 : ℕ → fl.F64
  f64 n = fl.of_u64 n

  unfoldable pub short : fl.F64 → Bytes
  short n =
      if nu.lt n (f64 10)
      then nu.fixed 4 n
      else if nu.lt n (f64 100)
      then nu.fixed 3 n
      else if nu.lt n (f64 1000)
      then nu.fixed 2 n
      else if nu.lt n (f64 10000)
      then nu.fixed 1 n
      else nu.fixed 0 n

  -- `format!("{:>6} {}", short(values[0]), unit)`; the values are as many as they were, one.
  unfoldable pub shown : Bytes × List fl.F64 → Bytes
  unfolding short
  shown (unit, []) = []
  shown (unit, v ∷ vs) = align_right 6 (short v) ++ 0x20 ∷ unit

  -- The loop over the values.
  abbrev pub divided : fl.F64 → List fl.F64 → fl.F64 × Bytes → Bytes × List fl.F64
  divided by values (denominator, unit) =
      (unit, map (λ v. fl.divide (fl.divide v by) denominator) values)

  abbrev pub multiplied : List fl.F64 → fl.F64 × Bytes → Bytes × List fl.F64
  multiplied values (factor, unit) = (unit, map (λ v. fl.multiply v factor) values)

  unfoldable pub cycles_per_byte : fl.F64 → fl.F64 → List fl.F64 → Bytes × List fl.F64
  cycles_per_byte num_bytes typical values =
      let cycles_per_byte = fl.divide typical num_bytes in
      let mul = fl.multiply in
      divided num_bytes values (
        if nu.lt cycles_per_byte (f64 1000)
        then (f64 1, codes "  cycles/B")
        else if nu.lt cycles_per_byte (mul (f64 1000) (f64 1000))
        then (f64 1000, codes "Kcycles/B")
        else if nu.lt cycles_per_byte (mul (mul (f64 1000) (f64 1000)) (f64 1000))
        then (mul (f64 1000) (f64 1000), codes "Mcycles/B")
        else (mul (mul (f64 1000) (f64 1000)) (f64 1000), codes "Gcycles/B"))

  unfoldable pub cycles_per_element : fl.F64 → fl.F64 → List fl.F64 → Bytes × List fl.F64
  cycles_per_element elems typical values =
      let cycles_per_element = fl.divide typical elems in
      let mul = fl.multiply in
      divided elems values (
        if nu.lt cycles_per_element (f64 1000)
        then (f64 1, codes " cycles/elem")
        else if nu.lt cycles_per_element (mul (f64 1000) (f64 1000))
        then (f64 1000, codes "Kcycles/elem")
        else if nu.lt cycles_per_element (mul (mul (f64 1000) (f64 1000)) (f64 1000))
        then (mul (f64 1000) (f64 1000), codes "Mcycles/elem")
        else (mul (mul (f64 1000) (f64 1000)) (f64 1000), codes "Gcycles/elem"))

  unfoldable pub scale_throughputs : fl.F64 → Throughput → List fl.F64 → Bytes × List fl.F64
  unfolding cycles_per_byte cycles_per_element
  scale_throughputs typical (bytes n) values = cycles_per_byte (fl.of_u64 n) typical values
  scale_throughputs typical (elements n) values = cycles_per_element (fl.of_u64 n) typical values

  unfoldable pub scale_values : fl.F64 → List fl.F64 → Bytes × List fl.F64
  scale_values typical_value values = multiplied values (
      if nu.lt typical_value (nu.powi (f64 10) 3)
      then (nu.powi (f64 10) 0, codes "cycles")
      else if nu.lt typical_value (nu.powi (f64 10) 6)
      then (nu.powi_neg (f64 10) 3, codes "Kcycles")
      else if nu.lt typical_value (nu.powi (f64 10) 9)
      then (nu.powi_neg (f64 10) 6, codes "Mcycles")
      else (nu.powi_neg (f64 10) 9, codes "Gcycles"))

  abbrev pub scale_for_machines : List fl.F64 → Bytes × List fl.F64
  scale_for_machines values = (codes "cycles", values)

  unfoldable pub format_value : fl.F64 → Bytes
  unfolding shown scale_values
  format_value value = shown (scale_values value (value ∷ []))

  unfoldable pub format_throughput : Throughput → fl.F64 → Bytes
  unfolding shown scale_throughputs
  format_throughput throughput value = shown (scale_throughputs value throughput (value ∷ []))

  -- `CyclesFormatter`
  unfoldable pub cycles_formatter : Formatter fl
  unfolding format_value format_throughput
  cycles_formatter = record {
    value_text = format_value;
    throughput_text = format_throughput;
    scaled = scale_values;
    scaled_throughputs = scale_throughputs;
    scaled_for_machines = scale_for_machines;
  }
