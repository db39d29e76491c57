-- ===== src/Proxy/CcFront.antt =====
-- The proxy between the target and cargo-criterion: src/proxy/ccfront.rs. The links carry whole
-- messages here; a message that does not come, because its link has ended or the time has run out,
-- is an error. The formatter is any `ValueFormatter` (src/proxy/formatter.rs).
pub mod Serve
pub mod Turns
pub mod Answers
use farcri_rs.Prelude.{
  ℕ, zero, suc, ◌+◌, ◌*◌, ◌-◌, ◌%◌, min, Bool, true, false, Option, none, some, List, [], ◌∷◌, ◌++◌,
  map, length, replicate, Bytes,
}
use farcri_rs.Time.{u64_mod}
use farcri_rs.Protocol as Wire
use farcri_rs.Protocol.{Throughput}
use farcri_rs.Proxy.CcProtocol.{
  Floats, RawBenchmarkId, cc_id, linear, flat, cc_config, IncomingMessage, format_value,
  format_throughput, scale_values, scale_throughputs, scale_for_machines, continue, other,
  OutgoingMessage, beginning_benchmark_group, finished_benchmark_group, beginning_benchmark,
  skipping_benchmark, warmup, measurement_start, measurement_complete, formatted_value,
  scaled_values,
}

-- `ValueFormatter`: a method that changes its values gives them back with the unit.
pub record Formatter (fl : Floats) : Type 0 where
  pub value_text : fl.F64 → Bytes
  pub throughput_text : Throughput → fl.F64 → Bytes
  pub scaled : fl.F64 → List fl.F64 → Bytes × List fl.F64
  pub scaled_throughputs : fl.F64 → Throughput → List fl.F64 → Bytes × List fl.F64
  pub scaled_for_machines : List fl.F64 → Bytes × List fl.F64

-- What passed over the links, and what is still to come. `clock` gives the time since the origin, in
-- nanoseconds, at each of its reads.
pub record Front (fl : Floats) : Type 0 where
  pub from_cc : List (IncomingMessage fl)
  pub to_cc : List (OutgoingMessage fl)
  pub to_target : List Wire.DownstreamMessage
  pub clock : ℕ → ℕ
  pub reads : ℕ
  pub current_group : Option Bytes
  pub current_benchmark : Option RawBenchmarkId

pub data Result (A : Type 0) : Type 0 where
  ok : A → Result A
  failed : Result A
  panicked : Result A

abbrev pub chain : {A B : Type 0} → Result A → (A → Result B) → Result B
chain (ok a) f = f a
chain failed f = failed
chain panicked f = panicked

-- What `serve_value_formatter` does with a message: a response, the end, or a panic.
pub data Service (fl : Floats) : Type 0 where
  respond : OutgoingMessage fl → Service fl
  finish : Service fl
  refuse : Service fl

abbrev respond_scaled : {fl : Floats} → Bytes × List fl.F64 → Service fl
respond_scaled (unit, values) = respond (scaled_values values unit)

module _ (fl : Floats) where
  -- A whole message on the link to cargo-criterion.
  unfoldable pub cc_send : OutgoingMessage fl → Front fl → Front fl
  cc_send m s = record s { to_cc = s.to_cc ++ m ∷ [] }

  -- A whole message on the link to the target.
  unfoldable pub target_send : Wire.DownstreamMessage → Front fl → Front fl
  target_send m s = record s { to_target = s.to_target ++ m ∷ [] }

  unfoldable pub service : Formatter fl → IncomingMessage fl → Service fl
  service fm (format_value value) = respond (formatted_value (fm.value_text value))
  service fm (format_throughput value tp) = respond (formatted_value (fm.throughput_text tp value))
  service fm (scale_values typical values) = respond_scaled (fm.scaled typical values)
  service fm (scale_throughputs typical values tp) =
      respond_scaled (fm.scaled_throughputs typical tp values)
  service fm (scale_for_machines values) = respond_scaled (fm.scaled_for_machines values)
  service fm continue = finish
  service fm other = refuse

  unfoldable pub served :
      Service fl
      → List (IncomingMessage fl)
      → Front fl
      → (Front fl → Result (Front fl))
      → Result (Front fl)
  served (respond m) rest s next = next (cc_send m s)
  served finish rest s next = ok (record s { from_cc = rest })
  served refuse rest s next = panicked

  -- The loop of `serve_value_formatter` over the messages to come.
  unfoldable pub serve_loop :
      Formatter fl → List (IncomingMessage fl) → Front fl → Result (Front fl)
  unfolding served
  serve_loop fm [] s = failed
  serve_loop fm (m ∷ rest) s = served (service fm m) rest s (serve_loop fm rest)

  unfoldable pub serve_value_formatter : Formatter fl → Front fl → Result (Front fl)
  unfolding serve_loop
  serve_value_formatter fm s = serve_loop fm s.from_cc s

  unfoldable pub unwrap : {A : Type 0} → Option A → (A → Result (Front fl)) → Result (Front fl)
  unwrap none k = panicked
  unwrap (some a) k = k a

  unfoldable pub assert_is_none : {A : Type 0} → Option A → Front fl → Result (Front fl)
  assert_is_none none s = ok s
  assert_is_none (some a) s = panicked

  unfoldable pub instant_reply : Front fl → Front fl
  instant_reply s =
      target_send (Wire.instant (s.clock s.reads % u64_mod)) (record s { reads = suc s.reads })

  -- "saturating_mul"
  abbrev pub saturating_mul : ℕ → ℕ → ℕ
  saturating_mul a b = min (a * b) (u64_mod - 1)

  -- `serve_value_formatter(..)?; target_link.send(Continue)`
  unfoldable pub serve_and_continue : Formatter fl → Front fl → Result (Front fl)
  serve_and_continue fm s =
      chain (serve_value_formatter fm s) λ s'. ok (target_send Wire.continue s')

  -- A turn of the loop of `run_frontend`, for a message other than `End`.
  unfoldable pub turn : Formatter fl → Wire.UpstreamMessage → Front fl → Result (Front fl)
  unfolding unwrap assert_is_none instant_reply serve_and_continue
  turn fm Wire.get_instant s = ok (instant_reply s)
  turn fm Wire.end s = ok s
  turn fm (Wire.beginning_benchmark_group group) s =
      chain (assert_is_none s.current_group (cc_send (beginning_benchmark_group group) s))
        λ s'. ok (record s' { current_group = some group })
  turn fm Wire.finished_benchmark_group s = unwrap s.current_group λ group.
      serve_and_continue fm
        (cc_send (finished_benchmark_group group) (record s { current_group = none }))
  turn fm (Wire.beginning_benchmark id) s =
      chain (assert_is_none s.current_benchmark (cc_send (beginning_benchmark (cc_id id)) s))
        λ s'. ok (record s' { current_benchmark = some (cc_id id) })
  turn fm (Wire.skipping_benchmark id) s = ok (cc_send (skipping_benchmark (cc_id id)) s)
  turn fm (Wire.warmup goal) s =
      unwrap s.current_benchmark λ id. ok (cc_send (warmup id (fl.of_u64 goal)) s)
  turn fm (Wire.measurement_start wu_iters wu_duration num_samples num_iters) s =
      let ns_per_iter = fl.divide (fl.of_u64 wu_duration) (fl.of_u64 wu_iters) in
      let estimate_ns = fl.multiply ns_per_iter (fl.of_u64 num_iters) in
      unwrap s.current_benchmark λ id. ok (
        cc_send
          (measurement_start id num_samples estimate_ns (saturating_mul num_samples num_iters)) s)
  turn fm (Wire.measurement_complete per_sample values config) s =
      let iters = replicate (length values) (fl.of_u64 per_sample) in
      let times = map fl.of_u64 values in
      unwrap s.current_benchmark λ id. serve_and_continue fm (
        cc_send (measurement_complete id iters times linear flat (cc_config fl config))
          (record s { current_benchmark = none }))

  -- `run_frontend`, over the messages that the target sends.
  unfoldable pub run_frontend :
      Formatter fl → List Wire.UpstreamMessage → Front fl → Result (Front fl)
  unfolding turn
  run_frontend fm [] s = failed
  run_frontend fm (Wire.end ∷ ms) s = ok s
  run_frontend fm (m ∷ ms) s = chain (turn fm m s) λ s'. run_frontend fm ms s'

  -- The turns of that loop for some messages, as long as it goes on.
  unfoldable pub turns : Formatter fl → List Wire.UpstreamMessage → Front fl → Result (Front fl)
  turns fm [] s = ok s
  turns fm (m ∷ ms) s = chain (turn fm m s) λ s'. turns fm ms s'
