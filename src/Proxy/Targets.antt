-- ===== src/Proxy/Targets.antt =====
-- The boards that the proxy knows: the interfaces `Target` and `BuildSetup` and the list `TARGETS` of
-- src/proxy/targets/mod.rs, the board of probe_rs.rs beside it, the set-up of ldscript.rs, and how
-- src/proxy/mod.rs looks a board up.
use farcri_rs.Prelude.{
  ℕ, Bool, true, false, Option, none, some, List, [], ◌∷◌, ◌++◌, map, equal, equal_iff,
  if◌then◌else◌, codes, Bytes, ◌≡◌, ◌≢◌, refl, ap, sym, ◌∙◌, inl, inr, Bool-cases,
}
use farcri_rs.Arch.{Arch, cortex_m4f, BuildOpt, build_opt}
use farcri_rs.Futures.{Attempt, ok, err}
use farcri_rs.Proxy.Main.{Step, Opts, Board, Port, main_inner, with_opt, attempt, finished}
use farcri_rs.Proxy.Main.{prepare_build as prepare}

-- `BuildSetup`, its environment variables with their values.
pub record BuildSetup : Type 0 where
  pub build_envs : List (Bytes × Bytes)
  pub rustc_flags : List Bytes

-- The set-up for `()`, the methods' default bodies.
abbrev pub no_setup : BuildSetup
no_setup = record { build_envs = []; rustc_flags = [] }

-- `RtLdscriptSetup`, in its temporary directory.
unfoldable pub rt_ldscript_setup : Bytes → BuildSetup
rt_ldscript_setup dir = record {
  build_envs = (codes "FARCRI_LINK_SEARCH", dir) ∷ [];
  rustc_flags = codes "-C" ∷ codes "link-arg=-Tlink.x" ∷ [];
}

-- What `RtLdscriptSetup::new` needs: a directory, and a file `memory.x` in it.
pub record FileSystem : Type 0 where
  pub temp_dir : Option Bytes
  pub write_file : Bytes → Bytes → Bool

-- `RtLdscriptSetup::new`
unfoldable pub new_setup : FileSystem → Bytes → Option BuildSetup
unfolding rt_ldscript_setup
new_setup fs memory_x_contents = elim fs.temp_dir [
  | none ↦ none
  | some dir ↦
      if fs.write_file (dir ++ codes "/memory.x") memory_x_contents
      then some (rt_ldscript_setup dir)
      else none
]

-- `Target`; `connect` gives the probe's selector and the chip.
pub record Target : Type 0 where
  pub target_arch : Arch
  pub cargo_features : List Bytes
  pub prepare_build : FileSystem → Option BuildSetup
  pub connect : Bytes × Bytes

abbrev pub memory_x : Bytes
memory_x =
    codes "\n                MEMORY\n                {\n"
    ++ (codes "                  /* NOTE K = KiBi = 1024 bytes */\n"
        ++ (codes "                  FLASH : ORIGIN = 0x08000000, LENGTH = 512K\n"
            ++ (codes "                  RAM : ORIGIN = 0x20000000, LENGTH = 96K\n"
                ++ (codes "                }\n\n"
                    ++ codes
                        "                _stack_start = ORIGIN(RAM) + LENGTH(RAM);\n            "))))

unfoldable pub nucleo_f401re : Target
unfolding new_setup
nucleo_f401re = record {
  target_arch = cortex_m4f;
  cargo_features = codes "target_nucleo_f401re" ∷ [];
  prepare_build = λ fs. new_setup fs memory_x;
  connect = (codes "0483:374b", codes "stm32f401re");
}

pub data OpenError : Type 0 where
  open_probe : ℕ → OpenError
  attach : ℕ → OpenError

mapped_err : {A : Type 0} → Attempt A ℕ → (ℕ → OpenError) → Attempt A OpenError
mapped_err (ok a) f = ok a
mapped_err (err e) f = err (f e)

attached : {P S : Type 0} → Attempt P OpenError → (P → Attempt S ℕ) → Attempt S OpenError
unfolding mapped_err
attached (ok p) attach_to = mapped_err (attach_to p) attach
attached (err e) attach_to = err e

-- `ProbeRsDebugProbe::new`, over the two calls of the third-party crate probe_rs: to open a probe and to
-- attach to the chip.
unfoldable pub new_probe :
    {P S : Type 0}
    → (Bytes → Attempt P ℕ)
    → (Bytes → P → Attempt S ℕ)
    → Bytes × Bytes
    → Attempt S OpenError
unfolding mapped_err attached
new_probe open_sel attach_to (probe_sel, target_sel) =
    attached (mapped_err (open_sel probe_sel) open_probe) (attach_to target_sel)

unfoldable pub targets : List (Bytes × Target)
unfolding nucleo_f401re
targets = (codes "nucleo_f401re", nucleo_f401re) ∷ []

-- `OverrideTargetArch`
abbrev pub override_target_arch : Arch → Target → Target
override_target_arch arch t = record t { target_arch = arch }

-- `iter().find(|x| x.0 == arg_target)`, and its second field.
unfoldable pub find_target : Bytes → List (Bytes × Target) → Option Target
find_target arg_target [] = none
find_target arg_target ((name, t) ∷ ts) =
    let rest = find_target arg_target ts in if equal name arg_target then some t else rest

-- `none`: "no such target".
unfoldable pub try_parse_target : Bytes → Option Target
unfolding find_target targets
try_parse_target arg_target = find_target arg_target targets

abbrev pub target_possible_values : List Bytes
target_possible_values = map (λ x. x.0) targets

-- What `main_inner` takes of a target and its set-up.
abbrev pub board : Target → BuildSetup → Board
board t setup = record {
  target_arch = t.target_arch;
  cargo_features = t.cargo_features;
  rustc_flags = setup.rustc_flags;
}

with_opt-override :
    (works : Step → Bool) (o : Opts) (a : Arch) (t : Target) (setup : BuildSetup) (name : Bytes)
    (p : Port) (opt : Option BuildOpt)
    → with_opt works (record o { arch = some a }) (board t setup) name p opt
      ≡ with_opt works
          (record o { arch = none })
          (board (override_target_arch a t) setup)
          name
          p
          opt
unfolding with_opt
with_opt-override works o a t setup name p none = refl
with_opt-override works o a t setup name p (some opt) = refl

-- The option for the architecture does what a target with that architecture does: the same steps, the
-- same arguments for cargo, and the same exit, whichever steps work.
pub main_inner-override :
    (works : Step → Bool) (o : Opts) (a : Arch) (t : Target) (setup : BuildSetup) (name : Bytes)
    (p : Port)
    → main_inner works (record o { arch = some a }) (board t setup) name p
      ≡ main_inner works (record o { arch = none }) (board (override_target_arch a t) setup) name p
unfolding main_inner attempt
main_inner-override works o a t setup name p =
    ap (λ r. if o.bench then attempt works prepare r else finished)
      (with_opt-override works o a t setup name p (build_opt a))

-- No target has the name.
abbrev pub Unlisted : Bytes → List (Bytes × Target) → Type 0
Unlisted name [] = Unit {0}
Unlisted name ((n, t) ∷ ts) = (n ≢ name) × Unlisted name ts

-- The target is the first with the name.
abbrev pub Found : Bytes → List (Bytes × Target) → Option Target → Type 0
Found name ts none = Unlisted name ts
Found name ts (some t) =
    (before : List (Bytes × Target)) × (behind : List (Bytes × Target)) × (ts
      ≡ before ++ (name, t) ∷ behind)
    × Unlisted name before

Found-later :
    (name n : Bytes) (t : Target) (ts : List (Bytes × Target)) (o : Option Target)
    → n ≢ name
    → Found name ts o
    → Found name ((n, t) ∷ ts) o
Found-later name n t ts none h f = (h, f)
Found-later name n t ts (some u) h (before, behind, e, f) =
    ((n, t) ∷ before, behind, ap (◌∷◌ (n, t)) e, (h, f))

not_equal : (a b : Bytes) → equal a b ≡ false → a ≢ b
not_equal a b e q = elim (distinct (sym ((equal_iff a b).1 q) ∙ e)) [ ]
  where
    distinct : ◌≡◌ {A = Bool} true false → ⊥
    distinct h = cc

find_target-Found :
    (name : Bytes) (ts : List (Bytes × Target)) → Found name ts (find_target name ts)
unfolding find_target
find_target-Found name [] = tt
find_target-Found name ((n, t) ∷ ts) = elim (Bool-cases (equal n name)) [
  | inl e ↦ rw e ([], ts, ap (λ x. (x, t) ∷ ts) ((equal_iff n name).0 e), tt)
  | inr e ↦ rw e (
      Found-later name n t ts (find_target name ts) (not_equal n name e)
        (find_target-Found name ts))
]

-- `try_parse_target` gives the first target of `TARGETS` with the name, and refuses a name only if no
-- target has it.
pub try_parse_target-Found : (name : Bytes) → Found name targets (try_parse_target name)
unfolding try_parse_target
try_parse_target-Found name = find_target-Found name targets
