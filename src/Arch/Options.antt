-- ===== src/Arch/Options.antt =====
-- What `build_opt` of src/proxy/targets/mod.rs asks rustc for.
use farcri_rs.Prelude.{
  ℕ, Bool, true, false, ◌&&◌, ◌||◌, not, Option, none, some, [], ◌∷◌, drop, ◌==◌, if◌then◌else◌,
  Bytes, ◌≡◌, refl, arith,
}
use farcri_rs.Arch.{
  ArmMVersion, armv6m, armv7m, armv8m_baseline, armv8m_mainline, Xlen, x32, x64, Extensions, Arch,
  armv7a, arm_m, riscv, BuildOpt, build_opt,
}
use farcri_rs.Arch.Flags.{
  all_extensions, all_extensions_sound, same_extensions, same_extensions_sound,
}

-- The cores of the M profile that exist: ARMv6-M and the baseline of ARMv8-M have neither an FPU
-- nor DSP instructions, ARMv7-M has its FPU only with DSP, and rustc has no target for the DSP
-- extension of the mainline of ARMv8-M.
abbrev pub is_supported : Arch → Bool
is_supported (arm_m armv6m fpu dsp) = not (fpu || dsp)
is_supported (arm_m armv7m fpu dsp) = not fpu || dsp
is_supported (arm_m armv8m_baseline fpu dsp) = not (fpu || dsp)
is_supported (arm_m armv8m_mainline fpu dsp) = not dsp
is_supported _ = true

abbrev pub is_some {ℓ} : {A : Type ℓ} → Option A → Bool
is_some none = false
is_some (some _) = true

-- There are options for the supported architectures, and for no others.
pub is_some-build_opt : (a : Arch) → is_some (build_opt a) ≡ is_supported a
unfolding build_opt
is_some-build_opt armv7a = refl
is_some-build_opt (arm_m v true true) = arm_lem v
  where
    arm_lem :
        (v : ArmMVersion)
        → is_some (build_opt (arm_m v true true)) ≡ is_supported (arm_m v true true)
    arm_lem armv6m = refl
    arm_lem armv7m = refl
    arm_lem armv8m_baseline = refl
    arm_lem armv8m_mainline = refl
is_some-build_opt (arm_m v fpu dsp) = ground arith
is_some-build_opt (riscv xlen x) = refl

-- The letters of a RISC-V target triple, `riscv32imac-…`: those behind `riscv32`, up to the dash.
abbrev letter_in : ℕ → Bytes → Bool
letter_in c [] = false
letter_in c (b ∷ bs) = elim (b == b'-') [ true ↦ false | false ↦ b == c || letter_in c bs ]

-- A `target-feature` list: the last `+c` or `-c` decides on `c`.
abbrev modified : ℕ → ℕ → Bool → Bytes → Bool
modified c sign acc [] = acc
modified c sign acc (b ∷ bs) =
    modified c b (if b == c && (sign == b'+' || sign == b'-') then sign == b'+' else acc) bs

abbrev pub enabled : BuildOpt → ℕ → Bool → Bool
enabled opt c in_g =
    let isa = drop 7 opt.target_triple in
    modified c b',' (letter_in c isa || (in_g && letter_in b'g' isa)) opt.target_features

-- The extensions that the options spell: the letters of the triple, of which `g` stands for `m`, `a`, `f` and
-- `d`, changed by the feature list. What a compiler turns on besides, such as F with D, is no part of it.
pub spelled : BuildOpt → Extensions
spelled opt = record {
  e = enabled opt b'e' false;
  m = enabled opt b'm' true;
  a = enabled opt b'a' true;
  c = enabled opt b'c' false;
  f = enabled opt b'f' true;
  d = enabled opt b'd' true;
}

abbrev agrees : Option BuildOpt → Extensions → Bool
agrees none x = false
agrees (some opt) x = same_extensions (spelled opt) x

rv32_options : all_extensions (λ x. agrees (build_opt (riscv x32 x)) x) ≡ true
unfolding all_extensions same_extensions build_opt spelled
rv32_options = refl

rv64_options : all_extensions (λ x. agrees (build_opt (riscv x64 x)) x) ≡ true
unfolding all_extensions same_extensions build_opt spelled
rv64_options = refl

agrees_sound :
    (o : Option BuildOpt) (x : Extensions)
    → agrees o x ≡ true
    → (opt : BuildOpt) × (o ≡ some opt) × (spelled opt ≡ x)
agrees_sound none x h = cc
agrees_sound (some opt) x h = (opt, refl, same_extensions_sound (spelled opt) x h)

-- The triple and the feature list that a RISC-V architecture gets spell just its extensions: the letters of
-- the triple, less each that the list takes away and with each that it adds.
pub spelled-build_opt :
    (xlen : Xlen) (x : Extensions)
    → (opt : BuildOpt) × (build_opt (riscv xlen x) ≡ some opt) × (spelled opt ≡ x)
spelled-build_opt x32 x =
    agrees_sound _ x (all_extensions_sound (λ x. agrees (build_opt (riscv x32 x)) x) x rv32_options)
spelled-build_opt x64 x =
    agrees_sound _ x (all_extensions_sound (λ x. agrees (build_opt (riscv x64 x)) x) x rv64_options)
