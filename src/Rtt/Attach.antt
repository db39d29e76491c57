-- ===== src/Rtt/Attach.antt =====
-- From the executable to the stream: the probe of src/proxy/targets/probe_rs.rs, `attach_rtt` and the
-- guard that halts the core. The crates probe_rs, probe_rs_rtt, goblin and tokio are parameters.
pub mod Ends
pub mod Halts
pub mod Symbol
use farcri_rs.Prelude.{
  ℕ, zero, suc, ◌%◌, ◌^◌, Bool, true, false, ◌||◌, Option, none, some, List, [], ◌∷◌, equal, codes,
  ltb, ◌==◌, if◌then◌else◌, Bytes,
}
use farcri_rs.Futures.{Attempt, ok, err}
use farcri_rs.Rtt.{Channels}
use farcri_rs.Rtt.Polls.{ReadWriteRtt, new}

-- "probe_rs_rtt::Error", of which one case is told apart.
pub data RttError : Type 0 where
  control_block_not_found : RttError
  other_error : ℕ → RttError

pub data ScanRegion : Type 0 where
  exact : ℕ → ScanRegion
  ram : ScanRegion

-- The session with the probe: what its calls give, and what state they leave it in. An error is named
-- by a number.
pub record Session (S R : Type 0) : Type 0 where
  pub core : S → Attempt Unit ℕ × S
  pub halt : S → Attempt Unit ℕ × S
  pub run : S → Attempt Unit ℕ × S
  pub reset : S → Attempt Unit ℕ × S
  pub download_file : Bytes → S → Attempt Unit ℕ × S
  pub attach_region : ScanRegion → S → Attempt R RttError × S

pub record Sym : Type 0 where
  pub st_name : ℕ
  pub st_value : ℕ

-- What goblin finds in an executable: the symbols, and the names in the string table.
pub record Elf : Type 0 where
  pub syms : List Sym
  pub strtab : ℕ → Option (Attempt Bytes ℕ)

-- Durations are in nanoseconds.
abbrev pub poll_interval : ℕ
poll_interval = 30_000_000

abbrev pub rtt_attach_timeout : ℕ
rtt_attach_timeout = 500_000_000

pub data AttachRttError : Type 0 where
  attach_rtt_error : RttError → AttachRttError
  halt_core : ℕ → AttachRttError
  timeout : AttachRttError

pub data RunError : Type 0 where
  flash : ℕ → RunError
  reset_error : ℕ → RunError
  attach_error : AttachRttError → RunError

pub record RttOptions : Type 0 where
  pub halt_on_access : Bool

abbrev pub is_rtt_name : Option (Attempt Bytes ℕ) → Bool
is_rtt_name (some (ok name)) = equal name (codes "_SEGGER_RTT")
is_rtt_name _ = false

unfoldable pub find_in_syms : (ℕ → Option (Attempt Bytes ℕ)) → List Sym → Option ℕ
find_in_syms strtab [] = none
find_in_syms strtab (sym ∷ syms) =
    let rest = find_in_syms strtab syms in
    if is_rtt_name (strtab sym.st_name) then some sym.st_value else rest

-- `find_rtt_symbol`, of what goblin makes of the bytes.
unfoldable pub find_rtt_symbol : Option Elf → Option ℕ
unfolding find_in_syms
find_rtt_symbol none = none
find_rtt_symbol (some elf) = find_in_syms elf.strtab elf.syms

abbrev region_at : Option ℕ → ScanRegion
region_at (some x) = exact (x % 2 ^ 32)
region_at none = ram

-- `rtt_scan_region`, given the executable's bytes, if they could be read.
unfoldable pub rtt_scan_region : (Bytes → Option Elf) → Option Bytes → ScanRegion
unfolding find_rtt_symbol
rtt_scan_region parse (some elf_bytes) = region_at (find_rtt_symbol (parse elf_bytes))
rtt_scan_region parse none = ram

-- What comes of the loop that attaches.
pub data Attached (R : Type 0) : Type 0 where
  attached : R → Attached R
  refused : AttachRttError → Attached R
  out_of_fuel : Attached R

-- Turns enough to reach the timeout with a delay behind each.
abbrev pub attach_turns : ℕ
attach_turns = 18

module _ {S R : Type 0} (se : Session S R) where
  -- A call, and one that follows if it succeeds.
  then_call : Attempt Unit ℕ × S → (S → Attempt Unit ℕ × S) → Attempt Unit ℕ × S
  then_call (ok u, s) next = next s
  then_call (err e, s) next = (err e, s)

  -- `CoreHaltGuard::new`
  unfoldable pub guard_new : S → Attempt Unit ℕ × S
  unfolding then_call
  guard_new s = then_call (se.core s) se.halt

  -- `CoreHaltGuard::drop`: its errors are ignored.
  unfoldable pub guard_drop : S → S
  unfolding then_call
  guard_drop s = (then_call (se.core s) se.run).1

  dropped : {A : Type 0} → A × S → A × S
  unfolding guard_drop
  dropped (a, s) = (a, guard_drop s)

  guarded : {A E : Type 0} → Attempt Unit ℕ × S → (ℕ → E) → (S → Attempt A E × S) → Attempt A E × S
  unfolding dropped
  guarded (ok u, s) wrap access = dropped (access s)
  guarded (err e, s) wrap access = (err (wrap e), s)

  -- An access under `_halt_guard`.
  unfoldable pub with_halt_guard :
      {A E : Type 0} → Bool → (ℕ → E) → (S → Attempt A E × S) → S → Attempt A E × S
  unfolding guarded guard_new
  with_halt_guard halt_on_access wrap access s =
      if halt_on_access then guarded (guard_new s) wrap access else access s

  -- What becomes of an attempt to attach.
  unfoldable pub attempted :
      Channels R → Attempt R RttError × S → Attempt (Option R) AttachRttError × S
  attempted ch (ok rtt, s) =
      if ch.up_channels rtt == 0 || ch.down_channels rtt == 0
      then (ok none, s)
      else (ok (some rtt), s)
  attempted ch (err control_block_not_found, s) = (ok none, s)
  attempted ch (err e, s) = (err (attach_rtt_error e), s)

  unfoldable pub attach_turn :
      Channels R → RttOptions → ScanRegion → S → Attempt (Option R) AttachRttError × S
  unfolding attempted with_halt_guard
  attach_turn ch options region =
      with_halt_guard options.halt_on_access halt_core
        (λ s. attempted ch (se.attach_region region s))

  -- What a turn of the loop makes of it, with the time since the start.
  turned : Attempt (Option R) AttachRttError × S → ℕ → (S → Attached R × S) → Attached R × S
  turned (ok (some rtt), s) elapsed next = (attached rtt, s)
  turned (ok none, s) elapsed next =
      if ltb rtt_attach_timeout elapsed then (refused timeout, s) else next s
  turned (err e, s) elapsed next = (refused e, s)

  -- The loop of `attach_rtt` from the `n`-th turn on, where the clock says `elapsed n`.
  unfoldable pub attach_loop :
      Channels R → RttOptions → ScanRegion → (ℕ → ℕ) → ℕ → ℕ → S → Attached R × S
  unfolding turned attach_turn
  attach_loop ch options region elapsed zero n s = (out_of_fuel, s)
  attach_loop ch options region elapsed (suc fuel) n s =
      turned (attach_turn ch options region s) (elapsed n)
        (attach_loop ch options region elapsed fuel (suc n))

  -- `attach_rtt`, up to the stream, given what the file system gives for the executable.
  unfoldable pub attach_rtt :
      (Bytes → Option Elf) → Channels R → Option Bytes → RttOptions → (ℕ → ℕ) → S → Attached R × S
  unfolding attach_loop rtt_scan_region
  attach_rtt parse ch elf_bytes options elapsed =
      attach_loop ch options (rtt_scan_region parse elf_bytes) elapsed attach_turns 0

  -- What comes of running an executable.
  pub data Run : Type 0 where
    streams : ReadWriteRtt R → Run
    failed : RunError → Run
    still_attaching : Run

  streamed : Attached R × S → Run × S
  streamed (attached rtt, s) = (streams (new rtt), s)
  streamed (refused e, s) = (failed (attach_error e), s)
  streamed (out_of_fuel, s) = (still_attaching, s)

  or_failed : Attempt Unit ℕ × S → (ℕ → RunError) → (S → Run × S) → Run × S
  or_failed (ok u, s) wrap next = next s
  or_failed (err e, s) wrap next = (failed (wrap e), s)

  -- `program_and_get_output`
  unfoldable pub program_and_get_output :
      (Bytes → Option Elf) → Channels R → Bytes → Option Bytes → (ℕ → ℕ) → S → Run × S
  unfolding streamed or_failed attach_rtt then_call
  program_and_get_output parse ch path elf_bytes elapsed s =
      or_failed (se.download_file path s) flash λ s'.
        or_failed (then_call (se.core s') se.reset) reset_error λ s''.
          streamed (attach_rtt parse ch elf_bytes (record { halt_on_access = false }) elapsed s'')
