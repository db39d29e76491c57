-- ===== src/Bencher/Measure.antt =====
-- What a measurement of src/bencher/func.rs executes and reads, for a closure that calls `iter` once.
use farcri_rs.Prelude.{
  Option, Bytes, ℕ, zero, suc, ◌+◌, ◌*◌, false, List, [], ◌∷◌, ◌≡◌, refl, ◌∙◌, arith,
}
use farcri_rs.Time.{sub_u64}
use farcri_rs.Protocol.{Mode}
use farcri_rs.Target.{wait_continue, recv, receive, waiting, Target, done, value}
use farcri_rs.Bencher.Criterion.{
  Build, Throughput, BenchmarkId, raw_id, run_mode, bench_function_inner,
}
use farcri_rs.Bencher.{
  Bencher, Closure, iter, now_if, elapsed_since, run_routine, call_iter, call, calls,
  assert_iterated, invoke, bench_loop, bench,
}

-- The differences of the counter between its readings, two by two.
abbrev pub differences : (ℕ → ℕ) → ℕ → ℕ → List ℕ
differences counter r zero = []
differences counter r (suc n) =
    sub_u64 (counter (suc r)) (counter r) ∷ differences counter (suc (suc r)) n

-- The target behind `n` calls of the closure with `k` iterations each.
abbrev pub measured : ℕ → ℕ → Target → Target
measured k zero t = t
measured k (suc n) t = measured k n (record t {
  reads = suc (suc t.reads);
  invocations = suc t.invocations;
  executions = t.executions + k;
})

invoke-iter :
    (f : Closure) (b : Bencher) (t : Target)
    → ((i : ℕ) → f i ≡ iter ∷ [])
    → b.wants_elapsed_time ≡ false
    → invoke f b t
      ≡ done
          (record b { iterated = false; value = sub_u64 (t.now (suc t.reads)) (t.now t.reads) })
          (measured b.iters 1 t)
unfolding invoke calls call call_iter assert_iterated now_if elapsed_since run_routine value
invoke-iter f b t h w = rw (h t.invocations, w) refl

bench_loop-iter :
    (f : Closure) (n : ℕ) (b : Bencher) (t : Target)
    → ((i : ℕ) → f i ≡ iter ∷ [])
    → b.wants_elapsed_time ≡ false
    → bench_loop f n b t ≡ done (differences t.now t.reads n) (measured b.iters n t)
unfolding bench_loop
bench_loop-iter f zero b t h w = refl
bench_loop-iter f (suc n) b t h w =
    rw
      (
        invoke-iter f b t h w,
        bench_loop-iter f n
            (record b { iterated = false; value = sub_u64 (t.now (suc t.reads)) (t.now t.reads) })
            (measured b.iters 1 t) h w,
      )
      refl

measured_lem :
    (k n : ℕ) (t : Target)
    → ((measured k n t).executions ≡ t.executions + k * n)
      × ((measured k n t).sent ≡ t.sent)
      × ((measured k n t).incoming ≡ t.incoming)
measured_lem k zero t = (omega arith, refl, refl)
measured_lem k (suc n) t =
    let (e, s, i) = measured_lem k n (record t {
      reads = suc (suc t.reads);
      invocations = suc t.invocations;
      executions = t.executions + k;
    }) in
    let p : t.executions + k + k * n ≡ t.executions + k * suc n = omega arith in (e ∙ p, s, i)

-- For a closure that calls `iter` once, `bench` gives for each of its `n` samples the difference of
-- the counter around the call; the routine is executed `iters_per_sample * n` times, and no message
-- is sent or taken.
pub bench-iter :
    (f : Closure) (iters_per_sample n : ℕ) (t : Target)
    → ((i : ℕ) → f i ≡ iter ∷ [])
    → (t' : Target) × (bench f iters_per_sample n t ≡ done (differences t.now t.reads n) t')
      × (t'.executions ≡ t.executions + iters_per_sample * n)
      × (t'.sent ≡ t.sent)
      × (t'.incoming ≡ t.incoming)
unfolding bench
bench-iter f k n t h =
    let (e, s, i) = measured_lem k n t in (measured k n t, bench_loop-iter f n _ t h refl, e, s, i)

-- In `Mode::Test`, with no message under way, a benchmark whose closure calls `iter` once runs it,
-- sends nothing, and then waits for a message.
pub test_mode_waits :
    (build : Build) (name : Bytes) (tp : Option Throughput) (id : BenchmarkId) (f : Closure)
    (t : Target)
    → ((i : ℕ) → f i ≡ iter ∷ [])
    → t.incoming ≡ []
    → (t' : Target) × (run_mode build Mode.test (raw_id build name tp id) f t ≡ done tt t')
      × (t'.sent ≡ t.sent)
      × (bench_function_inner build Mode.test name tp id f t ≡ waiting t')
unfolding bench_function_inner run_mode bench wait_continue recv receive
test_mode_waits build name tp id f t h e =
    let ran =
      bench_loop-iter f 1
        (record {
          iterated = false;
          iters = 1;
          value = 0;
          elapsed_time = 0;
          wants_elapsed_time = false;
        })
        t h refl in
    (measured 1 1 t, rw ran refl, refl, rw (ran, e) refl)
