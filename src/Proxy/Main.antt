-- ===== src/Proxy/Main.antt =====
-- The steps of the proxy's `main_inner`, src/proxy/mod.rs, and the command with which src/cargo.rs builds the
-- target's program. What each step awaits is a parameter.
pub mod Plan
use farcri_rs.Prelude.{
  ℕ, suc, Bool, true, false, not, Option, none, some, List, [], ◌∷◌, ◌++◌, map, ◌==◌, if◌then◌else◌,
  codes, Bytes,
}
use farcri_rs.Protocol.{Mode, benchmark, test}
use farcri_rs.Arch.{Arch, BuildOpt, build_opt}

pub data LogLevel : Type 0 where
  off error warn info debug trace : LogLevel

abbrev pub log_feature : LogLevel → Bytes
log_feature off = codes "--features=farcri/max_level_off"
log_feature error = codes "--features=farcri/max_level_error"
log_feature warn = codes "--features=farcri/max_level_warn"
log_feature info = codes "--features=farcri/max_level_info"
log_feature debug = codes "--features=farcri/max_level_debug"
log_feature trace = codes "--features=farcri/max_level_trace"

-- `Opts`, less the options that are not used.
pub record Opts : Type 0 where
  pub bench : Bool
  pub arch : Option Arch
  pub dry_run : Bool
  pub log_level : LogLevel

-- What the `Target` and its `BuildSetup` give.
pub record Board : Type 0 where
  pub target_arch : Arch
  pub cargo_features : List Bytes
  pub rustc_flags : List Bytes

pub data Step : Type 0 where
  prepare_build : Step
  connect_probe : Step
  build : (args : List Bytes) (rustflags : Bytes) → Step
  program : Step
  handshake : Step
  greet : Mode → Step
  connect_criterion : (port : ℕ) → Step
  cc_front dumb_front : Step

pub data Exit : Type 0 where
  success failure : Exit

-- The steps that were tried, the last one perhaps in vain.
pub record Run : Type 0 where
  pub steps : List Step
  pub exit : Exit

-- `$CARGO_CRITERION_PORT`: not set, or no number, or a number.
pub data Port : Type 0 where
  unset : Port
  invalid : Port
  port : ℕ → Port

abbrev empty : Bytes → Bool
empty [] = true
empty (b ∷ bs) = false

abbrev pushed_flags : Bytes → List Bytes → Bytes
pushed_flags rustflags [] = rustflags
pushed_flags rustflags (x ∷ xs) = pushed_flags (rustflags ++ (codes " " ++ x)) xs

abbrev pub rustflags_of : Bytes → List Bytes → Bytes
rustflags_of target_features flags =
    pushed_flags
      (if empty target_features then [] else codes "-C target-feature=" ++ target_features) flags

-- The arguments that the closure adds to cargo's.
abbrev pub build_args : Opts → Board → BuildOpt → List Bytes
build_args o b opt =
    (codes "--features=farcri/role_target" ∷ [])
    ++ (map (λ f. codes "--features=farcri/" ++ f) b.cargo_features
        ++ ((log_feature o.log_level ∷ codes "--target" ∷ opt.target_triple ∷ [])
            ++ (if empty opt.target_features then [] else codes "-Zbuild-std=core" ∷ [])))

-- The arguments of cargo, with the target name of `cargo_bench_path_args`.
abbrev pub cargo_args : Bytes → List Bytes → List Bytes
cargo_args target_name args =
    codes "bench"
    ∷ codes "--bench"
    ∷ target_name
    ∷ codes "--no-run"
    ∷ codes "--message-format"
    ∷ codes "json-render-diagnostics"
    ∷ args

-- The last dash, and what stands before it.
abbrev before_dash : Option Bytes → ℕ → Option Bytes
before_dash (some name) c = some (c ∷ name)
before_dash none c = if c == b'-' then some [] else none

-- `rfind("-")` and the slice before it; `none`: "could not locate the crate disambiguator".
unfoldable pub target_name_of : Bytes → Option Bytes
target_name_of [] = none
target_name_of (c ∷ cs) = before_dash (target_name_of cs) c

abbrev pub arch_of : Opts → Board → Arch
arch_of o b = elim o.arch [ none ↦ b.target_arch | some a ↦ a ]

abbrev pub stopped : Run
stopped = record { steps = []; exit = failure }

abbrev pub finished : Run
finished = record { steps = []; exit = success }

module _ (works : Step → Bool) where
  -- A step, and what follows if it works.
  unfoldable pub attempt : Step → Run → Run
  attempt s rest =
      if works s
      then record rest { steps = s ∷ rest.steps }
      else record { steps = s ∷ []; exit = failure }

  unfoldable pub front_end : Port → Run
  unfolding attempt
  front_end unset = attempt dumb_front finished
  front_end invalid = stopped
  front_end (port p) = attempt (connect_criterion p) (attempt cc_front finished)

  unfoldable pub on_target : Step → Mode → Port → Run
  unfolding attempt front_end
  on_target compile mode p =
      attempt connect_probe
        (attempt compile (attempt program (attempt handshake (attempt (greet mode) (front_end p)))))

  unfoldable pub with_opt : Opts → Board → Bytes → Port → Option BuildOpt → Run
  unfolding attempt on_target
  with_opt o b name p none = stopped
  with_opt o b name p (some opt) =
      let compile =
        build (cargo_args name (build_args o b opt))
          (rustflags_of opt.target_features b.rustc_flags) in
      if o.dry_run
      then attempt compile finished
      else on_target compile (if o.bench then benchmark else test) p

  -- `main_inner`, where `works` tells which steps do.
  unfoldable pub main_inner : Opts → Board → Bytes → Port → Run
  unfolding attempt with_opt
  main_inner o b name p =
      if o.bench
      then attempt prepare_build (with_opt o b name p (build_opt (arch_of o b)))
      else finished
