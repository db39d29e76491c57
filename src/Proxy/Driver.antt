-- ===== src/Proxy/Driver.antt =====
-- Driver mode, src/driver.rs, and the command for cargo of src/cargo.rs: what both take from the environment.
use farcri_rs.Prelude.{
  ℕ, Option, none, some, List, [], ◌∷◌, ◌++◌, equal, if◌then◌else◌, drop, codes, Bytes, ◌≡◌, refl,
  ◌∙◌,
}
use farcri_rs.Futures.{Attempt, ok, err}
use farcri_rs.Proxy.Main.{cargo_args, target_name_of}
use farcri_rs.Proxy.Main.Plan.{target_name_of-dash}

-- The environment: its variables, the file name of the executable without its extension, which may be
-- unknown or no UTF-8, and the arguments of the process.
pub record Env : Type 0 where
  pub var_os : Bytes → Option Bytes
  pub current_exe : Option (Option Bytes)
  pub args_os : List Bytes

pub data PathArgsError : Type 0 where
  cargo_not_set manifest_dir_not_set no_executable_name not_utf8 no_disambiguator : PathArgsError

abbrev pub ok_or : {A : Type 0} → Option A → PathArgsError → Attempt A PathArgsError
ok_or none e = err e
ok_or (some a) e = ok a

abbrev pub and_then :
    {A B : Type 0}
    → Attempt A PathArgsError
    → (A → Attempt B PathArgsError)
    → Attempt B PathArgsError
and_then (ok a) f = f a
and_then (err e) f = err e

abbrev pub cargo_var : Bytes
cargo_var = codes "CARGO"

abbrev pub manifest_dir_var : Bytes
manifest_dir_var = codes "CARGO_MANIFEST_DIR"

-- `cargo_bench_path_args`: cargo, the directory of the package, and the target's name, from which
-- `cargo_args` makes the arguments.
unfoldable pub cargo_bench_path_args : Env → Attempt (Bytes × Bytes × Bytes) PathArgsError
cargo_bench_path_args env = and_then (ok_or (env.var_os cargo_var) cargo_not_set) λ cargo.
    and_then (ok_or (env.var_os manifest_dir_var) manifest_dir_not_set) λ package_path.
      and_then (ok_or env.current_exe no_executable_name) λ exe_path.
        and_then (ok_or exe_path not_utf8) λ exe_name.
          and_then (ok_or (target_name_of exe_name) no_disambiguator)
            λ target_name. ok (cargo, package_path, target_name)

pub record Command : Type 0 where
  pub program : Bytes
  pub current_dir : Bytes
  pub args : List Bytes

-- The command of `compile_self`, with what `modify_cmd` adds.
unfoldable pub command : List Bytes → Env → Attempt Command PathArgsError
unfolding cargo_bench_path_args
command added env =
    and_then (cargo_bench_path_args env)
      λ p. ok (record { program = p.0; current_dir = p.1; args = cargo_args p.2 added })

abbrev pub set_var : Bytes → Bytes → Env → Env
set_var name value env = record env {
  var_os = λ n. if equal n name then some value else env.var_os n;
}

abbrev pub with_manifest_dir : Option Bytes → Bytes → Env → Env
with_manifest_dir (some d) dir env = env
with_manifest_dir none [] env = env
with_manifest_dir none (c ∷ cs) env = set_var manifest_dir_var (c ∷ cs) env

-- The beginning of `main`: `CARGO_MANIFEST_DIR` as it was when the driver was compiled.
unfoldable pub driver_env : Bytes → Env → Env
driver_env dir env = with_manifest_dir (env.var_os manifest_dir_var) dir env

-- How `main` builds Proxy mode.
unfoldable pub driver_command : Bytes → Env → Attempt Command PathArgsError
unfolding command driver_env
driver_command dir env =
    command (codes "--features" ∷ codes "farcri/role_proxy" ∷ []) (driver_env dir env)

-- The process that replaces this one.
abbrev pub proxy_process : Bytes → Env → Bytes × List Bytes
proxy_process exe env = (exe, drop 1 env.args_os)

abbrev pub or_dir : Option Bytes → Bytes → Bytes
or_dir none dir = dir
or_dir (some d) dir = d

command-args :
    (added : List Bytes) (env : Env) (cargo dir name hash : Bytes)
    → env.var_os cargo_var ≡ some cargo
    → env.var_os manifest_dir_var ≡ some dir
    → env.current_exe ≡ some (some (name ++ b'-' ∷ hash))
    → target_name_of hash ≡ none
    → command added env
      ≡ ok (record { program = cargo; current_dir = dir; args = cargo_args name added })
unfolding command cargo_bench_path_args
command-args added env cargo dir name hash has place exe plain =
    rw (has, place, exe, target_name_of-dash name hash plain) refl

with_manifest_dir_lem :
    (o : Option Bytes) (c : ℕ) (cs : Bytes) (env : Env)
    → env.var_os manifest_dir_var ≡ o
    → let env' = with_manifest_dir o (c ∷ cs) env in
      (env'.var_os manifest_dir_var ≡ some (or_dir o (c ∷ cs)))
      × (env'.var_os cargo_var ≡ env.var_os cargo_var)
      × (env'.current_exe ≡ env.current_exe)
with_manifest_dir_lem none c cs env q = (refl, refl, refl)
with_manifest_dir_lem (some d) c cs env q = (q, refl, refl)

-- Outside cargo, where `CARGO_MANIFEST_DIR` may be missing, and wherever the driver was compiled by cargo:
-- with a program for cargo and an executable named as cargo names it, the driver has cargo build, and not
-- run, the benchmark of that name, with its messages as JSON and the feature of the proxy, in the directory
-- of the environment if there is one, else in that of the compilation.
pub driver_command-Builds :
    (c : ℕ) (cs cargo name hash : Bytes) (env : Env)
    → env.var_os cargo_var ≡ some cargo
    → env.current_exe ≡ some (some (name ++ b'-' ∷ hash))
    → target_name_of hash ≡ none
    → driver_command (c ∷ cs) env
      ≡ ok (record {
        program = cargo;
        current_dir = or_dir (env.var_os manifest_dir_var) (c ∷ cs);
        args =
            codes "bench"
            ∷ codes "--bench"
            ∷ name
            ∷ codes "--no-run"
            ∷ codes "--message-format"
            ∷ codes "json-render-diagnostics"
            ∷ codes "--features"
            ∷ codes "farcri/role_proxy"
            ∷ [];
      })
unfolding driver_command driver_env
driver_command-Builds c cs cargo name hash env has exe plain =
    let (place, same, exe') = with_manifest_dir_lem (env.var_os manifest_dir_var) c cs env refl in
    command-args _ (driver_env (c ∷ cs) env) cargo (or_dir (env.var_os manifest_dir_var) (c ∷ cs))
      name hash (same ∙ has) place (exe' ∙ exe) plain
