-- ===== src/Bencher.antt =====
-- Running one benchmark on the target: src/bencher/bencher.rs, func.rs and analysis.rs.
pub mod Criterion
pub mod Conversation
pub mod Measure
pub mod WarmUp
pub mod Names
use farcri_rs.Prelude.{
  ℕ, zero, suc, ◌+◌, ◌-◌, ◌*◌, ◌/◌, ◌%◌, min, max, Bool, true, false, Option, none, some, List, [],
  ◌∷◌, ◌++◌, length, ltb, ◌==◌, if◌then◌else◌, replicate, take,
}
use farcri_rs.Time.{u64_mod, Instant, Duration, add_u64, sub_u64, since}
use farcri_rs.Protocol.{BenchmarkConfig, warmup, measurement_start, measurement_complete}
use farcri_rs.Target.{
  Target, done, M, ◌>>=◌, ◌>>◌, and_then, pure, panic, send, now, value, Outcome, out_of_fuel,
}

-- `Bencher`, less its measurement, which is the target.
pub record Bencher : Type 0 where
  pub iterated : Bool
  pub iters : ℕ
  pub value : ℕ
  pub elapsed_time : Duration
  pub wants_elapsed_time : Bool

-- What a closure under test may call on its `Bencher`: `iter`, or `iter_custom` with a routine
-- that measures itself. The closure's own work takes no part in the protocol.
pub data Call : Type 0 where
  iter : Call
  iter_custom : (ℕ → ℕ) → Call

-- The calls that the closure makes when it is invoked for the n-th time.
abbrev pub Closure : Type 0
Closure = ℕ → List Call

unfoldable pub now_if : Bool → M (Option Instant)
now_if true = do x ← now; pure (some x)
now_if false = pure none

unfoldable pub elapsed_since : Option Instant → Bencher → M Bencher
elapsed_since none b = pure b
elapsed_since (some start) b = do x ← now; pure (record b { elapsed_time = since x start })

unfoldable pub run_routine : ℕ → M (Unit {0})
run_routine n t = done tt (record t { executions = t.executions + n })

-- `Bencher::iter`
unfoldable pub call_iter : Bencher → M Bencher
unfolding now_if elapsed_since run_routine
call_iter b = do
  time_start ← now_if b.wants_elapsed_time
  start ← value
  run_routine b.iters
  stop ← value
  elapsed_since time_start (record b { iterated = true; value = sub_u64 stop start })

-- `Bencher::iter_custom`
unfoldable pub call_iter_custom : (ℕ → ℕ) → Bencher → M Bencher
call_iter_custom routine b = do
  time_start ← now
  stop ← now
  pure (record b { iterated = true; value = routine b.iters; elapsed_time = since stop time_start })

unfoldable pub call : Call → Bencher → M Bencher
unfolding call_iter call_iter_custom
call iter b = call_iter b
call (iter_custom routine) b = call_iter_custom routine b

unfoldable pub calls : List Call → Bencher → M Bencher
unfolding call
calls [] b = pure b
calls (c ∷ cs) b = do b' ← call c b; calls cs b'

-- `assert_iterated`
unfoldable pub assert_iterated : Bencher → M Bencher
assert_iterated b = if b.iterated then pure (record b { iterated = false }) else panic

-- `(*f)(&mut b); b.assert_iterated();`
unfoldable pub invoke : Closure → Bencher → M Bencher
unfolding calls assert_iterated
invoke f b t =
    (do b' ← calls (f t.invocations) b; assert_iterated b')
      (record t { invocations = suc t.invocations })

-- The loop of `Function::bench` over the places for the values.
unfoldable pub bench_loop : Closure → ℕ → Bencher → M (List ℕ)
bench_loop f zero b = pure []
bench_loop f (suc n) b = do b' ← invoke f b; rest ← bench_loop f n b'; pure (b'.value ∷ rest)

-- `Function::bench`: the values for `n` samples.
unfoldable pub bench : Closure → ℕ → ℕ → M (List ℕ)
unfolding bench_loop
bench f iters_per_sample n = bench_loop f n (record {
  iterated = false;
  iters = iters_per_sample;
  value = 0;
  elapsed_time = 0;
  wants_elapsed_time = false;
})

-- The loop of `Function::warm_up`, with the time and the iterations so far.
unfoldable pub warm_up_loop : ℕ → Closure → Duration → Bencher → Duration → ℕ → M (Duration × ℕ)
warm_up_loop zero f how_long b elapsed_time total_iters t = out_of_fuel
warm_up_loop (suc fuel) f how_long b elapsed_time total_iters t =
    (do
      b' ← invoke f b
      let total_iters' = add_u64 total_iters b'.iters
      let elapsed_time' = add_u64 elapsed_time b'.elapsed_time
      let again =
          warm_up_loop fuel f how_long (record b' { iters = (b'.iters * 2) % u64_mod })
            elapsed_time' total_iters'
      if ltb how_long elapsed_time' then pure (elapsed_time', total_iters') else again)
      t

unfoldable pub warm_up : ℕ → Closure → Duration → M (Duration × ℕ)
unfolding warm_up_loop
warm_up fuel f how_long =
    warm_up_loop fuel f how_long
      (record {
        iterated = false;
        iters = 1;
        value = 0;
        elapsed_time = 0;
        wants_elapsed_time = true;
      })
      0 0

-- The capacity of `ValueBuf`.
abbrev pub value_capacity : ℕ
value_capacity = 128

unfoldable pub num_samples_of : BenchmarkConfig → ℕ
num_samples_of config = max (min config.sample_size value_capacity) 1

-- The arithmetic on `u128`, whose operands are `u64`: the product does not overflow. The cast to
-- `u64` wraps.
unfoldable pub num_iters_per_sample_of : BenchmarkConfig → ℕ → ℕ
num_iters_per_sample_of config wu_iters =
    max (wu_iters * config.measurement_time / config.warm_up_time / config.sample_size) 1 % u64_mod

-- `Function::sample`: the values, and the iterations for each. A division by zero and the check
-- on the product panic.
unfoldable pub sample : ℕ → Closure → BenchmarkConfig → M (ℕ × List ℕ)
unfolding warm_up bench num_samples_of num_iters_per_sample_of
sample fuel f config = do
  let num_samples = num_samples_of config
  send (warmup config.warm_up_time)
  (wu_elapsed, wu_iters) ← warm_up fuel f config.warm_up_time
  let per_sample = num_iters_per_sample_of config wu_iters
  let num_iters = per_sample * num_samples
  let measure = (do
    send (measurement_start wu_iters wu_elapsed num_samples num_iters)
    values ← bench f per_sample num_samples
    pure (per_sample, values))
  if config.warm_up_time == 0
      then panic
      else (if config.sample_size == 0
          then panic
          else (if ltb num_iters u64_mod then measure else panic))

-- `analysis::common`
unfoldable pub common : ℕ → Closure → BenchmarkConfig → M (Unit {0})
unfolding sample
common fuel f config = do
  (per_sample, values) ← sample fuel f config
  send (measurement_complete per_sample values config)
