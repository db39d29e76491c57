-- ===== src/Bencher/Criterion.antt =====
-- The benchmark manager on the target: src/bencher/mod.rs and bid.rs. The calls that the user's code
-- makes on it are data.

use farcri_rs.Prelude.{
  ℕ, Bool, Option, none, some, List, [], ◌∷◌, take, length, ltb, if◌then◌else◌, Bytes,
}
use farcri_rs.Str.{utf8_str_prev}
use farcri_rs.Protocol as Wire
use farcri_rs.Protocol.{
  Mode, DownstreamMessage, greeting, continue, instant, RawBenchmarkId, default_config,
  beginning_benchmark_group, finished_benchmark_group, beginning_benchmark, end,
}
use farcri_rs.Target.{M, ◌>>=◌, ◌>>◌, pure, panic, send, recv, wait_continue}
use farcri_rs.Bencher.{Closure, bench, common}

-- What a `Display` writes, piece by piece.
abbrev pub Display : Type 0
Display = List Bytes

pub record BenchmarkId : Type 0 where
  pub function_name : Option Display
  pub parameter : Option Display

module _ where
  abbrev pub new : Display → Display → BenchmarkId
  new f p = record { function_name = some f; parameter = some p }

  abbrev pub no_function : BenchmarkId
  no_function = record { function_name = none; parameter = none }

  abbrev pub from_parameter : Display → BenchmarkId
  from_parameter p = record { function_name = none; parameter = some p }

  -- A value that can be displayed, as an id.
  abbrev pub as_benchmark_id : Display → BenchmarkId
  as_benchmark_id f = record { function_name = some f; parameter = none }

pub data Throughput : Type 0 where
  bytes : ℕ → Throughput
  elements : ℕ → Throughput

-- `From<Throughput>` of src/bencher/protocol.rs
abbrev pub wire_throughput : Throughput → Wire.Throughput
wire_throughput (bytes n) = Wire.bytes n
wire_throughput (elements n) = Wire.elements n

-- The calls on a `BenchmarkGroup`, and a group with them, up to its drop.
pub data Action : Type 0 where
  throughput : Throughput → Action
  bench_function : BenchmarkId → Closure → Action

pub record Group : Type 0 where
  pub name : Bytes
  pub actions : List Action

-- The build: whether it has debug assertions, `ArrayString::try_push_str` of the third-party crate
-- arrayvec for a capacity of 128, and the fuel for the loop of each warm-up.
pub record Build : Type 0 where
  pub debug_assertions : Bool
  pub try_push_str : Bytes → Bytes → Option Bytes
  pub fuel : ℕ

abbrev pub name_capacity : ℕ
name_capacity = 128

go_on : Option Bytes → Bytes → (Bytes → Bytes) → Bytes
go_on none buf next = buf
go_on (some buf') buf next = next buf'

-- `write!` stops at the first piece that does not fit.
filled : (Bytes → Bytes → Option Bytes) → Bytes → Display → Bytes
unfolding go_on
filled push buf [] = buf
filled push buf (piece ∷ pieces) = go_on (push buf piece) buf λ buf'. filled push buf' pieces

unfoldable pub fill_array_string_with_display : Build → Display → Bytes
unfolding filled
fill_array_string_with_display build display = filled build.try_push_str [] display

truncated : Option ℕ → Bytes → Option Bytes
truncated none name = none
truncated (some n) name = some (take n name)

-- The part of the group's name that `benchmark_group` keeps; `none` for a panic. (`utf8_str_prev`
-- gives a boundary of a scalar, so the slice does not panic.)
unfoldable pub kept_name : Build → Bytes → Option Bytes
unfolding truncated
kept_name build name =
    if ltb name_capacity (length name)
    then truncated (utf8_str_prev build.debug_assertions name name_capacity) name
    else some name

unfoldable pub or_panic : {A : Type 0} → Option A → M A
or_panic none = panic
or_panic (some a) = pure a

-- `Criterion::benchmark_group`: the name in the buffer.
unfoldable pub benchmark_group : Build → Bytes → M Bytes
unfolding or_panic
benchmark_group build name = do
  short ← or_panic (kept_name build name)
  group_name ← or_panic (build.try_push_str [] short)
  send (beginning_benchmark_group group_name)
  pure group_name

abbrev display_option : Build → Option Display → Option Bytes
display_option build none = none
display_option build (some x) = some (fill_array_string_with_display build x)

abbrev wire_option : Option Throughput → Option Wire.Throughput
wire_option none = none
wire_option (some x) = some (wire_throughput x)

unfoldable pub raw_id : Build → Bytes → Option Throughput → BenchmarkId → RawBenchmarkId
raw_id build group_name tp id = record {
  group_id = group_name;
  function_id = display_option build id.function_name;
  value_str = display_option build id.parameter;
  throughput = wire_option tp;
}

-- What `bench_function_inner` does before it waits.
unfoldable pub run_mode : Build → Mode → RawBenchmarkId → Closure → M (Unit {0})
run_mode build Mode.benchmark id f = do
  send (beginning_benchmark id)
  common build.fuel f default_config
run_mode build Mode.test id f = do values ← bench f 1 1; pure tt

unfoldable pub bench_function_inner :
    Build → Mode → Bytes → Option Throughput → BenchmarkId → Closure → M (Unit {0})
unfolding run_mode
bench_function_inner build mode group_name tp id f = do
  run_mode build mode (raw_id build group_name tp id) f
  wait_continue

-- The calls on a group, with its throughput so far.
unfoldable pub run_actions : Build → Mode → Bytes → Option Throughput → List Action → M (Unit {0})
unfolding bench_function_inner
run_actions build mode group_name tp [] = pure tt
run_actions build mode group_name tp (throughput t ∷ rest) =
    run_actions build mode group_name (some t) rest
run_actions build mode group_name tp (bench_function id f ∷ rest) = do
  bench_function_inner build mode group_name tp id f
  run_actions build mode group_name tp rest

-- `BenchmarkGroup::drop`
unfoldable pub drop_group : M (Unit {0})
drop_group = do send finished_benchmark_group; wait_continue

unfoldable pub run_group : Build → Mode → Group → M (Unit {0})
unfolding benchmark_group run_actions drop_group
run_group build mode g = do
  group_name ← benchmark_group build g.name
  run_actions build mode group_name none g.actions
  drop_group

-- `Criterion::bench_function`
unfoldable pub single : Bytes → Closure → Group
single id f = record { name = id; actions = bench_function no_function f ∷ [] }

unfoldable pub run_groups : Build → Mode → List Group → M (Unit {0})
unfolding run_group
run_groups build mode [] = pure tt
run_groups build mode (g ∷ gs) = do run_group build mode g; run_groups build mode gs

unfoldable pub greeted : DownstreamMessage → M Mode
greeted (greeting _ mode) = pure mode
greeted _ = panic

-- `main`, behind the handshake.
unfoldable pub main : Build → List Group → M (Unit {0})
unfolding greeted run_groups
main build groups = do msg ← recv; mode ← greeted msg; run_groups build mode groups; send end
