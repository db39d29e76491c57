-- ===== src/Protocol.antt =====
-- The messages of src/bencher/protocol.rs. A string is a list of bytes.
use farcri_rs.Prelude.{ℕ, Option, none, some, List, [], ◌∷◌, ◌++◌, codes, Bytes}
use farcri_rs.Time.{Instant, Duration}

-- `b"\x01fluttershyyay"` and `b"\x02applejack"`
abbrev pub handshake_magic : Bytes
handshake_magic = 1 ∷ codes "fluttershyyay"

abbrev pub handshake_nonce_len : ℕ
handshake_nonce_len = 16

abbrev pub handshake_end_magic : Bytes
handshake_end_magic = 2 ∷ codes "applejack"

pub data Mode : Type 0 where
  benchmark test : Mode

pub data DownstreamMessage : Type 0 where
  greeting : Bytes → Mode → DownstreamMessage
  continue : DownstreamMessage
  instant : Instant → DownstreamMessage

pub data Throughput : Type 0 where
  bytes : ℕ → Throughput
  elements : ℕ → Throughput

pub record RawBenchmarkId : Type 0 where
  pub group_id : Bytes
  pub function_id : Option Bytes
  pub value_str : Option Bytes
  pub throughput : Option Throughput

pub record BenchmarkConfig : Type 0 where
  pub measurement_time : Duration
  pub nresamples : ℕ
  pub sample_size : ℕ
  pub warm_up_time : Duration

-- `BenchmarkConfig::default`
abbrev pub default_config : BenchmarkConfig
default_config = record {
  measurement_time = 5_000_000_000;
  nresamples = 100_000;
  sample_size = 50;
  warm_up_time = 3_000_000_000;
}

pub data UpstreamMessage : Type 0 where
  beginning_benchmark_group : (group : Bytes) → UpstreamMessage
  finished_benchmark_group : UpstreamMessage
  beginning_benchmark : (id : RawBenchmarkId) → UpstreamMessage
  skipping_benchmark : (id : RawBenchmarkId) → UpstreamMessage
  warmup : (warm_up_goal_duration : Duration) → UpstreamMessage
  measurement_start :
      (warm_up_iter_count : ℕ) (warm_up_duration : Duration) (num_samples num_iters : ℕ)
      → UpstreamMessage
  measurement_complete :
      (num_iters_per_sample : ℕ) (values : List ℕ) (benchmark_config : BenchmarkConfig)
      → UpstreamMessage
  end : UpstreamMessage
  get_instant : UpstreamMessage

-- `filter(|x| !x.is_empty())`
abbrev nonempty : Option Bytes → List Bytes
nonempty none = []
nonempty (some []) = []
nonempty (some (b ∷ bs)) = (b ∷ bs) ∷ []

-- The loop of `Display for RawBenchmarkId`, behind its first part.
abbrev slashed : List Bytes → Bytes
slashed [] = []
slashed (part ∷ parts) = b'/' ∷ (part ++ slashed parts)

abbrev write_parts : List Bytes → Bytes
write_parts [] = []
write_parts (part ∷ parts) = part ++ slashed parts

-- `Display for RawBenchmarkId`
unfoldable pub id_text : RawBenchmarkId → Bytes
id_text id =
    write_parts (nonempty (some id.group_id) ++ (nonempty id.function_id ++ nonempty id.value_str))

-- What the sender of a message waits for.
pub data Reply : Type 0 where
  a_continue an_instant a_greeting : Reply

abbrev pub kind : DownstreamMessage → Reply
kind (greeting _ _) = a_greeting
kind continue = a_continue
kind (instant _) = an_instant
