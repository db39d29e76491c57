-- ===== src/Arch.antt =====
-- The target architectures of src/proxy/targets/mod.rs: the type, the named architectures, the
-- options for rustc, and the change of one feature. Text is a list of bytes.
pub mod Text
pub mod Flags
pub mod RoundTrip
pub mod Total
pub mod Options
use farcri_rs.Prelude.{
  Bool, true, false, ◌&&◌, not, Option, none, some, List, [], ◌∷◌, equal, if◌then◌else◌, codes,
  Bytes,
}
use farcri_rs.Fmt.{comma_separated_no_space}

pub data ArmMVersion : Type 0 where
  armv6m armv7m armv8m_baseline armv8m_mainline : ArmMVersion

pub data Xlen : Type 0 where
  x32 x64 : Xlen

-- The fields of `Arch::Riscv` behind `xlen`.
pub record Extensions : Type 0 where
  pub e : Bool
  pub m : Bool
  pub a : Bool
  pub c : Bool
  pub f : Bool
  pub d : Bool

pub data Arch : Type 0 where
  armv7a : Arch
  arm_m : (version : ArmMVersion) (fpu dsp : Bool) → Arch
  riscv : (xlen : Xlen) (x : Extensions) → Arch

abbrev extensions : Bool → Bool → Bool → Bool → Bool → Bool → Extensions
extensions e m a c f d = record { e = e; m = m; a = a; c = c; f = f; d = d }

abbrev pub cortex_a9 : Arch
cortex_a9 = armv7a

abbrev pub cortex_m0 : Arch
cortex_m0 = arm_m armv6m false false

abbrev pub cortex_m3 : Arch
cortex_m3 = arm_m armv7m false false

abbrev pub cortex_m4 : Arch
cortex_m4 = arm_m armv7m false true

abbrev pub cortex_m4f : Arch
cortex_m4f = arm_m armv7m true true

abbrev pub cortex_m23 : Arch
cortex_m23 = arm_m armv8m_baseline false false

abbrev pub cortex_m33 : Arch
cortex_m33 = arm_m armv8m_mainline false false

abbrev pub cortex_m33_fpu : Arch
cortex_m33_fpu = arm_m armv8m_mainline true false

abbrev pub rv32imac : Arch
rv32imac = riscv x32 (extensions false true true true false false)

abbrev pub rv64imac : Arch
rv64imac = riscv x64 (extensions false true true true false false)

abbrev pub rv32gc : Arch
rv32gc = riscv x32 (extensions false true true true true true)

abbrev pub rv64gc : Arch
rv64gc = riscv x64 (extensions false true true true true true)

abbrev pub named_archs : List (Bytes × Arch)
named_archs =
    (codes "cortex_a9", cortex_a9)
    ∷ (codes "cortex_m0", cortex_m0)
    ∷ (codes "cortex_m3", cortex_m3)
    ∷ (codes "cortex_m4", cortex_m4)
    ∷ (codes "cortex_m4f", cortex_m4f)
    ∷ (codes "cortex_m23", cortex_m23)
    ∷ (codes "cortex_m33", cortex_m33)
    ∷ (codes "rv32i", riscv x32 (extensions false false false false false false))
    ∷ (codes "rv64i", riscv x64 (extensions false false false false false false))
    ∷ (codes "rv32e", riscv x32 (extensions true false false false false false))
    ∷ []

pub record BuildOpt : Type 0 where
  pub target_triple : Bytes
  pub target_features : Bytes

abbrev from_target_triple : Bytes → BuildOpt
from_target_triple triple = record { target_triple = triple; target_features = [] }

-- `filter_map(|x| *x)`
abbrev present : List (Option Bytes) → List Bytes
present [] = []
present (none ∷ xs) = present xs
present (some x ∷ xs) = x ∷ present xs

abbrev with_target_features : BuildOpt → List (Option Bytes) → BuildOpt
with_target_features opt seq = record opt {
  target_features = comma_separated_no_space (present seq);
}

arm_m_opt : ArmMVersion → Bool → Bool → Option BuildOpt
arm_m_opt armv6m false false = some (from_target_triple (codes "thumbv6m-none-eabi"))
arm_m_opt armv6m _ _ = none
arm_m_opt armv7m false false = some (from_target_triple (codes "thumbv7m-none-eabi"))
arm_m_opt armv7m false true = some (from_target_triple (codes "thumbv7em-none-eabi"))
arm_m_opt armv7m true true = some (from_target_triple (codes "thumbv7em-none-eabihf"))
arm_m_opt armv7m true false = none
arm_m_opt armv8m_baseline false false = some (from_target_triple (codes "thumbv8m.base-none-eabi"))
arm_m_opt armv8m_mainline false false = some (from_target_triple (codes "thumbv8m.main-none-eabi"))
arm_m_opt armv8m_mainline true false = some (from_target_triple (codes "thumbv8m.main-none-eabihf"))
arm_m_opt armv8m_baseline _ _ = none
arm_m_opt armv8m_mainline _ _ = none

custom_triple : Xlen → Bytes
custom_triple x32 = codes "riscv32imac-unknown-none-elf"
custom_triple x64 = codes "riscv64imac-unknown-none-elf"

-- The last arm of the match.
custom_opt : Xlen → Extensions → BuildOpt
custom_opt xlen x = with_target_features (from_target_triple (custom_triple xlen)) (
    (if x.e then some (codes "+e") else none)
    ∷ (if x.m then none else some (codes "-m"))
    ∷ (if x.a then none else some (codes "-a"))
    ∷ (if x.c then none else some (codes "-c"))
    ∷ (if x.f then some (codes "+f") else none)
    ∷ (if x.d then some (codes "+d") else none)
    ∷ [])

-- The arms for RISC-V, on the fields `e m a c f d`.
riscv_opt : Xlen → (e m a c f d : Bool) → BuildOpt
riscv_opt x32 false false false false false false =
    from_target_triple (codes "riscv32i-unknown-none-elf")
riscv_opt x32 false true false true false false =
    from_target_triple (codes "riscv32imc-unknown-none-elf")
riscv_opt x32 false true true true false false =
    from_target_triple (codes "riscv32imac-unknown-none-elf")
riscv_opt x64 false true true true false false =
    from_target_triple (codes "riscv64imac-unknown-none-elf")
riscv_opt x64 false true true true true true =
    from_target_triple (codes "riscv64gc-unknown-none-elf")
riscv_opt xlen e m a c f d = custom_opt xlen (extensions e m a c f d)

unfoldable pub build_opt : Arch → Option BuildOpt
unfolding arm_m_opt custom_triple custom_opt riscv_opt comma_separated_no_space
build_opt armv7a = some (from_target_triple (codes "armv7a-none-eabi"))
build_opt (arm_m version fpu dsp) = arm_m_opt version fpu dsp
build_opt (riscv xlen x) = some (riscv_opt xlen x.e x.m x.a x.c x.f x.d)

-- `with_feature_by_name`: the macro's match on the field's name.
unfoldable pub with_feature_by_name : Arch → Bytes → Bool → Option Arch
with_feature_by_name armv7a name enable = none
with_feature_by_name (arm_m version fpu dsp) name enable =
    if equal name (codes "fpu")
    then some (arm_m version enable dsp)
    else if equal name (codes "dsp")
    then some (arm_m version fpu enable)
    else none
with_feature_by_name (riscv xlen x) name enable =
    if equal name (codes "e")
    then some (riscv xlen (record x { e = enable }))
    else if equal name (codes "m")
    then some (riscv xlen (record x { m = enable }))
    else if equal name (codes "a")
    then some (riscv xlen (record x { a = enable }))
    else if equal name (codes "c")
    then some (riscv xlen (record x { c = enable }))
    else if equal name (codes "f")
    then some (riscv xlen (record x { f = enable }))
    else if equal name (codes "d")
    then some (riscv xlen (record x { d = enable }))
    else none
