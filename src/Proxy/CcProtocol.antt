-- ===== src/Proxy/CcProtocol.antt =====
-- The messages between the proxy and cargo-criterion: src/proxy/ccfront/ccprotocol.rs. The numbers
-- of type `f64` and what is done with them are parameters.
use farcri_rs.Prelude.{ℕ, ◌/◌, ◌%◌, ◌^◌, Option, none, some, List, [], ◌∷◌, codes, Bytes}
use farcri_rs.Time as Time
use farcri_rs.Protocol as Wire
use farcri_rs.Protocol.{Throughput}

pub record Floats : Type 1 where
  pub F64 : Type 0
  pub of_u64 : ℕ → F64
  pub divide : F64 → F64 → F64
  pub multiply : F64 → F64 → F64
  pub confidence_level : F64  -- 0.95
  pub noise_threshold : F64  -- 0.01
  pub significance_level : F64  -- 0.05

abbrev pub runner_magic_number : Bytes
runner_magic_number = codes "cargo-criterion"

abbrev pub runner_hello_size : ℕ
runner_hello_size = 18

abbrev pub benchmark_magic_number : Bytes
benchmark_magic_number = codes "Criterion"

abbrev pub protocol_version : ℕ
protocol_version = 1

abbrev pub protocol_format : ℕ
protocol_format = 1

pub record RawBenchmarkId : Type 0 where
  pub group_id : Bytes
  pub function_id : Option Bytes
  pub value_str : Option Bytes
  pub throughput : List Throughput

abbrev listed : Option Throughput → List Throughput
listed none = []
listed (some x) = x ∷ []

-- `From` for `RawBenchmarkId`
abbrev pub cc_id : Wire.RawBenchmarkId → RawBenchmarkId
cc_id other = record {
  group_id = other.group_id;
  function_id = other.function_id;
  value_str = other.value_str;
  throughput = listed other.throughput;
}

pub data AxisScale : Type 0 where
  linear logarithmic : AxisScale

pub data SamplingMethod : Type 0 where
  linear_sampling flat : SamplingMethod

pub record Duration : Type 0 where
  pub secs : ℕ
  pub nanos : ℕ

-- `From` for `Duration`
unfoldable pub cc_duration : Time.Duration → Duration
cc_duration other = record { secs = other / 1_000_000_000; nanos = other % 1_000_000_000 % 2 ^ 32 }

pub record BenchmarkConfig (fl : Floats) : Type 0 where
  pub confidence_level : fl.F64
  pub measurement_time : Duration
  pub noise_threshold : fl.F64
  pub nresamples : ℕ
  pub sample_size : ℕ
  pub significance_level : fl.F64
  pub warm_up_time : Duration

-- `From` for `BenchmarkConfig`
unfoldable pub cc_config : (fl : Floats) → Wire.BenchmarkConfig → BenchmarkConfig fl
cc_config fl other = record {
  confidence_level = fl.confidence_level;
  measurement_time = cc_duration other.measurement_time;
  noise_threshold = fl.noise_threshold;
  nresamples = other.nresamples;
  sample_size = other.sample_size;
  significance_level = fl.significance_level;
  warm_up_time = cc_duration other.warm_up_time;
}

pub data IncomingMessage (fl : Floats) : Type 0 where
  format_value : (value : fl.F64) → IncomingMessage fl
  format_throughput : (value : fl.F64) (throughput : Throughput) → IncomingMessage fl
  scale_values : (typical_value : fl.F64) (values : List fl.F64) → IncomingMessage fl
  scale_throughputs :
      (typical_value : fl.F64) (values : List fl.F64) (throughput : Throughput) → IncomingMessage fl
  scale_for_machines : (values : List fl.F64) → IncomingMessage fl
  continue : IncomingMessage fl
  other : IncomingMessage fl

pub data OutgoingMessage (fl : Floats) : Type 0 where
  beginning_benchmark_group : (group : Bytes) → OutgoingMessage fl
  finished_benchmark_group : (group : Bytes) → OutgoingMessage fl
  beginning_benchmark : (id : RawBenchmarkId) → OutgoingMessage fl
  skipping_benchmark : (id : RawBenchmarkId) → OutgoingMessage fl
  warmup : (id : RawBenchmarkId) (nanos : fl.F64) → OutgoingMessage fl
  measurement_start :
      (id : RawBenchmarkId) (sample_count : ℕ) (estimate_ns : fl.F64) (iter_count : ℕ)
      → OutgoingMessage fl
  measurement_complete :
      (id : RawBenchmarkId) (iters times : List fl.F64) (plot_config : AxisScale)
      (sampling_method : SamplingMethod) (benchmark_config : BenchmarkConfig fl)
      → OutgoingMessage fl
  formatted_value : (value : Bytes) → OutgoingMessage fl
  scaled_values : (scaled : List fl.F64) (unit : Bytes) → OutgoingMessage fl
