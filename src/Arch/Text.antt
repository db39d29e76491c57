-- ===== src/Arch/Text.antt =====
-- An architecture as text, src/proxy/targets/mod.rs: `Display` and `FromStr` of `Arch`.
use farcri_rs.Prelude.{
  ℕ, zero, suc, ◌+◌, ◌-◌, Bool, true, false, ◌||◌, Option, none, some, List, [], ◌∷◌, ◌++◌, length,
  get_or, take, drop, ltb, ◌==◌, equal, if◌then◌else◌, codes, Bytes,
}
use farcri_rs.Arch.{
  ArmMVersion, armv6m, armv7m, armv8m_baseline, armv8m_mainline, Xlen, x32, x64, Arch, armv7a,
  arm_m, riscv, named_archs, with_feature_by_name,
}

-- The base name, and whether `fpu` and `dsp` are still to be written.
arm_m_base : ArmMVersion → Bool → Bool → Bytes × Bool × Bool
arm_m_base armv6m fpu dsp = (codes "cortex_m0", fpu, dsp)
arm_m_base armv7m true true = (codes "cortex_m4f", false, false)
arm_m_base armv7m false true = (codes "cortex_m4", false, false)
arm_m_base armv7m fpu dsp = (codes "cortex_m3", fpu, dsp)
arm_m_base armv8m_baseline fpu dsp = (codes "cortex_m23", fpu, dsp)
arm_m_base armv8m_mainline fpu dsp = (codes "cortex_m33", fpu, dsp)

abbrev feature : Bool → Bytes → Bytes
feature enabled name = if enabled then name else []

abbrev xlen_text : Xlen → Bytes
xlen_text x32 = codes "32"
xlen_text x64 = codes "64"

-- `to_string`, by `Display`
unfoldable pub to_string : Arch → Bytes
unfolding arm_m_base
to_string armv7a = codes "cortex_a9"
to_string (arm_m version fpu dsp) =
    let (base, fpu', dsp') = arm_m_base version fpu dsp in
    base ++ (feature fpu' (codes "+fpu") ++ feature dsp' (codes "+dsp"))
to_string (riscv xlen x) =
    codes "rv"
    ++ (xlen_text xlen
        ++ ((if x.e then codes "e" else codes "i")
            ++ (feature x.m (codes "+m")
                ++ (feature x.a (codes "+a")
                    ++ (feature x.c (codes "+c")
                        ++ (feature x.f (codes "+f") ++ feature x.d (codes "+d")))))))

-- The result of `from_str`. The last two are no results of the code: `unreachable!()`, and fuel
-- that ran out.
pub data Parsed : Type 0 where
  parsed : Arch → Parsed
  unknown_base : Bytes → Parsed
  unknown_feature : Bytes → Parsed
  unreachable : Parsed
  out_of_fuel : Parsed

abbrev pub is_sign : ℕ → Bool
is_sign b = b == b'-' || b == b'+'

-- `find(&['-', '+'][..])`
unfoldable pub find_sign : Bytes → Option ℕ
find_sign [] = none
find_sign (b ∷ bs) = elim (is_sign b) [
  | true ↦ some 0
  | false ↦ elim (find_sign bs) [ none ↦ none | some i ↦ some (suc i) ]
]

abbrev pub sign_or_end : ℕ → ℕ → Option ℕ → ℕ
sign_or_end len i none = len
sign_or_end len i (some k) = k + i

-- `find(..)` in `s[i..]`, as an index of `s`, or its length.
unfoldable pub next_sign : Bytes → ℕ → ℕ
unfolding find_sign
next_sign s i = sign_or_end (length s) i (find_sign (drop i s))

unfoldable pub find_named : Bytes → List (Bytes × Arch) → Option Arch
find_named base [] = none
find_named base ((name, arch) ∷ rest) = if equal name base then some arch else find_named base rest

abbrev pub enabled_arch : Bytes → Option Arch → (Arch → Parsed) → Parsed
enabled_arch name none go = unknown_feature name
enabled_arch name (some arch) go = go arch

-- The loop over the features: `i` is the place of a sign, or the end.
unfoldable pub features : ℕ → Bytes → ℕ → Arch → Parsed
unfolding next_sign with_feature_by_name
features zero s i arch = out_of_fuel
features (suc n) s i arch =
    let sign = get_or s i 0 in
    let k = next_sign s (i + 1) in
    let name = take (k - (i + 1)) (drop (i + 1) s) in
    let step =
      enabled_arch name (with_feature_by_name arch name (sign == b'+')) (λ a. features n s k a) in
    if ltb i (length s) then (if is_sign sign then step else unreachable) else parsed arch

unfoldable pub from_base : Bytes → ℕ → Option Arch → Parsed
from_base s i none = unknown_base (take i s)
from_base s i (some arch) = features (suc (length s)) s i arch

unfoldable pub from_str : Bytes → Parsed
unfolding from_base features next_sign find_named
from_str s = let i = next_sign s 0 in from_base s i (find_named (take i s) named_archs)
