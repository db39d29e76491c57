-- ===== src/Arch/RoundTrip.antt =====
-- Reading back what `Display` writes, src/proxy/targets/mod.rs.
use farcri_rs.Prelude.{
  Bool, true, false, ◌&&◌, codes, ◌≡◌, refl, sym, ap, arith, equal, equal_iff, if◌then◌else◌,
}
use farcri_rs.Arch.{
  ArmMVersion, armv6m, armv7m, armv8m_baseline, armv8m_mainline, Xlen, x32, x64, Extensions, Arch,
  armv7a, arm_m, riscv,
}
use farcri_rs.Arch.Text.{to_string, Parsed, parsed, unknown_base, from_str}
use farcri_rs.Arch.Flags.{
  all_extensions, all_extensions_sound, same_extensions, same_extensions_sound,
}

-- The one kind of architecture that has no text: RV64E.
abbrev pub IsNamed : Arch → Type 0
IsNamed armv7a = Unit {0}
IsNamed (arm_m version fpu dsp) = Unit {0}
IsNamed (riscv x32 x) = Unit {0}
IsNamed (riscv x64 x) = x.e ≡ false

same_xlen : Xlen → Xlen → Bool
same_xlen x32 x32 = true
same_xlen x64 x64 = true
same_xlen _ _ = false

reads_riscv : Xlen → Extensions → Parsed → Bool
unfolding same_xlen same_extensions
reads_riscv xlen x (parsed (riscv xlen' x')) = same_xlen xlen xlen' && same_extensions x x'
reads_riscv xlen x _ = false

same_xlen_sound : (x y : Xlen) → same_xlen x y ≡ true → x ≡ y
unfolding same_xlen
same_xlen_sound x32 x32 h = refl
same_xlen_sound x64 x64 h = refl
same_xlen_sound x32 x64 h = cc
same_xlen_sound x64 x32 h = cc

reads_riscv_sound :
    (xlen : Xlen) (x : Extensions) (p : Parsed)
    → reads_riscv xlen x p ≡ true
    → p ≡ parsed (riscv xlen x)
reads_riscv_sound xlen x (parsed (riscv xlen' x')) h =
    let both : (same_xlen xlen xlen' && same_extensions x x') ≡ true = unfold reads_riscv in h in
    let l : same_xlen xlen xlen' ≡ true = ground arith in
    let r : same_extensions x x' ≡ true = ground arith in
    λ i.
      parsed (riscv (sym (same_xlen_sound xlen xlen' l) i) (sym (same_extensions_sound x x' r) i))
reads_riscv_sound xlen x p h = unfold reads_riscv in cc

reads_rv64e : Parsed → Bool
reads_rv64e (unknown_base b) = equal b (codes "rv64e")
reads_rv64e _ = false

reads_rv64e_sound : (p : Parsed) → reads_rv64e p ≡ true → p ≡ unknown_base (codes "rv64e")
unfolding reads_rv64e
reads_rv64e_sound (unknown_base b) h = ap unknown_base ((equal_iff b (codes "rv64e")).0 h)
reads_rv64e_sound p h = cc

rv64e_table :
    all_extensions (λ x. if x.e then reads_rv64e (from_str (to_string (riscv x64 x))) else true)
    ≡ true
unfolding all_extensions reads_rv64e from_str to_string
rv64e_table = refl

rv32_table : all_extensions (λ x. reads_riscv x32 x (from_str (to_string (riscv x32 x)))) ≡ true
unfolding all_extensions reads_riscv from_str to_string
rv32_table = refl

rv64_table :
    all_extensions
      (λ x. if x.e then true else reads_riscv x64 x (from_str (to_string (riscv x64 x))))
    ≡ true
unfolding all_extensions reads_riscv from_str to_string
rv64_table = refl

arm_m-from_str :
    (v : ArmMVersion) (fpu dsp : Bool)
    → from_str (to_string (arm_m v fpu dsp)) ≡ parsed (arm_m v fpu dsp)
unfolding from_str to_string
arm_m-from_str armv6m true true = refl
arm_m-from_str armv6m true false = refl
arm_m-from_str armv6m false true = refl
arm_m-from_str armv6m false false = refl
arm_m-from_str armv7m true true = refl
arm_m-from_str armv7m true false = refl
arm_m-from_str armv7m false true = refl
arm_m-from_str armv7m false false = refl
arm_m-from_str armv8m_baseline true true = refl
arm_m-from_str armv8m_baseline true false = refl
arm_m-from_str armv8m_baseline false true = refl
arm_m-from_str armv8m_baseline false false = refl
arm_m-from_str armv8m_mainline true true = refl
arm_m-from_str armv8m_mainline true false = refl
arm_m-from_str armv8m_mainline false true = refl
arm_m-from_str armv8m_mainline false false = refl

in_else : (b t e : Bool) → b ≡ false → (if b then t else e) ≡ true → e ≡ true
in_else b t e h k = ground arith

in_then : (b t e : Bool) → b ≡ true → (if b then t else e) ≡ true → t ≡ true
in_then b t e h k = ground arith

-- Every architecture but RV64E is read back from its text.
pub from_str-to_string : (a : Arch) → IsNamed a → from_str (to_string a) ≡ parsed a
from_str-to_string armv7a h = unfold from_str to_string in refl
from_str-to_string (arm_m v fpu dsp) h = arm_m-from_str v fpu dsp
from_str-to_string (riscv x32 x) h = reads_riscv_sound x32 x _ (
    all_extensions_sound (λ x. reads_riscv x32 x (from_str (to_string (riscv x32 x)))) x rv32_table)
from_str-to_string (riscv x64 x) h = reads_riscv_sound x64 x _ (
    in_else x.e true _ h (
      all_extensions_sound
        (λ x. if x.e then true else reads_riscv x64 x (from_str (to_string (riscv x64 x)))) x
        rv64_table))

-- RV64E, with any further extensions, is written with a base that `from_str` does not know.
pub from_str-rv64e :
    (x : Extensions)
    → x.e ≡ true
    → from_str (to_string (riscv x64 x)) ≡ unknown_base (codes "rv64e")
from_str-rv64e x h = reads_rv64e_sound _ (
    in_then x.e _ true h (
      all_extensions_sound
        (λ x. if x.e then reads_rv64e (from_str (to_string (riscv x64 x))) else true) x
        rv64e_table))
