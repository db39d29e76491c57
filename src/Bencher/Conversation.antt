-- ===== src/Bencher/Conversation.antt =====
-- The messages of a whole run of the target, in `Mode::Benchmark`.
use farcri_rs.Prelude.{
  ℕ, zero, suc, ◌+◌, Bool, true, false, Option, none, some, List, [], ◌∷◌, ◌==◌, ◌≡◌, refl, Bytes,
}
use farcri_rs.Time.{Instant, Duration, sub_u64}
use farcri_rs.Protocol.{
  Mode, DownstreamMessage, greeting, Reply, a_continue, end, BenchmarkConfig,
  beginning_benchmark_group, finished_benchmark_group, beginning_benchmark, default_config, warmup,
  measurement_start,
}
use farcri_rs.Target.{Target, M, ◌>>=◌, pure, send, now, value, recv, receive}
use farcri_rs.Target.Replies.{
  Phase, idle, in_group, in_benchmark, ended, Reaches, Talks, bind-Talks, pure-Talks, panic-Talks,
  if-Talks,
}
use farcri_rs.Target.Effects.{send-Talks, silent-Talks, wait_continue-Talks, now-Talks, value-Talks}
use farcri_rs.Bencher.{
  Bencher, Call, iter, iter_custom, Closure, now_if, elapsed_since, run_routine, call_iter,
  call_iter_custom, call, calls, assert_iterated, invoke, bench_loop, bench, warm_up_loop, warm_up,
  sample, common,
}
use farcri_rs.Bencher.Criterion.{
  BenchmarkId, Throughput, Action, throughput, bench_function, Group, Build, or_panic, kept_name,
  benchmark_group, run_mode, bench_function_inner, run_actions, drop_group, run_group, run_groups,
  greeted, main,
}

-- A part that keeps the benchmark open and asks for nothing that it does not wait for.
abbrev Measures : {A : Type 0} → M A → Type 0
Measures m = Talks in_benchmark [] in_benchmark [] m

now-Measures : Measures now
now-Measures = now-Talks refl

now_if-Measures : (b : Bool) → Measures (now_if b)
unfolding now_if
now_if-Measures true = bind-Talks now _ now-Measures λ x. pure-Talks _
now_if-Measures false = pure-Talks _

elapsed_since-Measures : (o : Option Instant) (b : Bencher) → Measures (elapsed_since o b)
unfolding elapsed_since
elapsed_since-Measures none b = pure-Talks _
elapsed_since-Measures (some _) b = bind-Talks now _ now-Measures λ x. pure-Talks _

run_routine-Measures : (n : ℕ) → Measures (run_routine n)
unfolding run_routine
run_routine-Measures n =
    silent-Talks (λ t. record t { executions = t.executions + n }) (pure tt) (λ t. refl) (λ t. refl)
      (pure-Talks tt)

call_iter-Measures : (b : Bencher) → Measures (call_iter b)
unfolding call_iter
call_iter-Measures b =
    bind-Talks (now_if b.wants_elapsed_time) _ (now_if-Measures b.wants_elapsed_time) λ time_start.
      bind-Talks value _ value-Talks λ start.
        bind-Talks (run_routine b.iters) _ (run_routine-Measures b.iters) λ _.
          bind-Talks value _ value-Talks λ stop.
            elapsed_since-Measures time_start
              (record b { iterated = true; value = sub_u64 stop start })

call_iter_custom-Measures : (routine : ℕ → ℕ) (b : Bencher) → Measures (call_iter_custom routine b)
unfolding call_iter_custom
call_iter_custom-Measures routine b =
    bind-Talks now _ now-Measures λ start. bind-Talks now _ now-Measures λ stop. pure-Talks _

call-Measures : (c : Call) (b : Bencher) → Measures (call c b)
unfolding call
call-Measures iter b = call_iter-Measures b
call-Measures (iter_custom routine) b = call_iter_custom-Measures routine b

calls-Measures : (cs : List Call) (b : Bencher) → Measures (calls cs b)
unfolding calls
calls-Measures [] b = pure-Talks b
calls-Measures (c ∷ cs) b = bind-Talks (call c b) _ (call-Measures c b) λ b'. calls-Measures cs b'

assert_iterated-Measures : (b : Bencher) → Measures (assert_iterated b)
unfolding assert_iterated
assert_iterated-Measures b = if-Talks b.iterated _ _ (pure-Talks _) panic-Talks

invoke-Measures : (f : Closure) (b : Bencher) → Measures (invoke f b)
unfolding invoke
invoke-Measures f b = record {
  at = λ t.
      (silent-Talks (λ t'. record t' { invocations = suc t'.invocations })
          (calls (f t.invocations) b >>= assert_iterated) (λ _. refl) (λ _. refl)
          (bind-Talks (calls (f t.invocations) b) assert_iterated
            (calls-Measures (f t.invocations) b) assert_iterated-Measures)).at
        t;
}

bench_loop-Measures : (f : Closure) (n : ℕ) (b : Bencher) → Measures (bench_loop f n b)
unfolding bench_loop
bench_loop-Measures f zero b = pure-Talks []
bench_loop-Measures f (suc n) b =
    bind-Talks (invoke f b) _ (invoke-Measures f b)
      λ b'. bind-Talks (bench_loop f n b') _ (bench_loop-Measures f n b') λ rest. pure-Talks _

warm_up_loop-Measures :
    (fuel : ℕ) (f : Closure) (how_long : Duration) (b : Bencher) (elapsed_time : Duration) (n : ℕ)
    → Measures (warm_up_loop fuel f how_long b elapsed_time n)
unfolding warm_up_loop
warm_up_loop-Measures zero f how_long b elapsed_time n = record { at = λ t. tt }
warm_up_loop-Measures (suc fuel) f how_long b elapsed_time n =
    bind-Talks (invoke f b) _ (invoke-Measures f b)
      λ b'. if-Talks _ _ _ (pure-Talks _) (warm_up_loop-Measures fuel f how_long _ _ _)

sample-Measures :
    (fuel : ℕ) (f : Closure) (config : BenchmarkConfig) → Measures (sample fuel f config)
unfolding sample warm_up bench
sample-Measures fuel f config =
    bind-Talks (send (warmup config.warm_up_time)) _ (send-Talks _ refl) λ _.
      bind-Talks (warm_up fuel f config.warm_up_time) _ (warm_up_loop-Measures fuel f _ _ _ _) λ w.
        if-Talks (config.warm_up_time == 0) _ _ panic-Talks (
          if-Talks (config.sample_size == 0) _ _ panic-Talks (
            if-Talks _ _ _
              (bind-Talks (send (measurement_start _ _ _ _)) _ (send-Talks _ refl)
                λ _. bind-Talks (bench f _ _) _ (bench_loop-Measures f _ _) λ values. pure-Talks _)
              panic-Talks))

common-Talks :
    (fuel : ℕ) (f : Closure) (config : BenchmarkConfig)
    → Talks in_benchmark [] in_group (a_continue ∷ []) (common fuel f config)
unfolding common
common-Talks fuel f config =
    bind-Talks (sample fuel f config) _ (sample-Measures fuel f config) λ s. send-Talks _ refl

abbrev InGroup : {A : Type 0} → M A → Type 0
InGroup m = Talks in_group [] in_group [] m

bench_function_inner-InGroup :
    (build : Build) (name : Bytes) (tp : Option Throughput) (id : BenchmarkId) (f : Closure)
    → InGroup (bench_function_inner build Mode.benchmark name tp id f)
unfolding bench_function_inner run_mode
bench_function_inner-InGroup build name tp id f =
    bind-Talks _ _
      (bind-Talks (send (beginning_benchmark _)) _ (send-Talks _ refl)
        λ _. common-Talks build.fuel f default_config)
      λ _. wait_continue-Talks

run_actions-InGroup :
    (build : Build) (name : Bytes) (tp : Option Throughput) (actions : List Action)
    → InGroup (run_actions build Mode.benchmark name tp actions)
unfolding run_actions
run_actions-InGroup build name tp [] = pure-Talks tt
run_actions-InGroup build name tp (throughput t ∷ rest) =
    run_actions-InGroup build name (some t) rest
run_actions-InGroup build name tp (bench_function id f ∷ rest) =
    bind-Talks _ _ (bench_function_inner-InGroup build name tp id f)
      λ _. run_actions-InGroup build name tp rest

or_panic-Talks :
    {A : Type 0} {p : Phase} {o : List Reply} (x : Option A) → Talks p o p o (or_panic x)
unfolding or_panic
or_panic-Talks none = panic-Talks
or_panic-Talks (some a) = pure-Talks a

run_group-Talks :
    (build : Build) (g : Group) → Talks idle [] idle [] (run_group build Mode.benchmark g)
unfolding run_group benchmark_group drop_group
run_group-Talks build g =
    bind-Talks (benchmark_group build g.name) _
      (bind-Talks (or_panic (kept_name build g.name)) _ (or_panic-Talks (kept_name build g.name))
        λ short.
          bind-Talks (or_panic (build.try_push_str [] short)) _
            (or_panic-Talks (build.try_push_str [] short))
            λ name.
              bind-Talks (send (beginning_benchmark_group name)) _ (send-Talks _ refl)
                λ _. pure-Talks name)
      λ name.
        bind-Talks (run_actions build Mode.benchmark name none g.actions) _
          (run_actions-InGroup build name none g.actions)
          λ _.
            bind-Talks (send finished_benchmark_group) _ (send-Talks _ refl)
              λ _. wait_continue-Talks

run_groups-Talks :
    (build : Build) (gs : List Group) → Talks idle [] idle [] (run_groups build Mode.benchmark gs)
unfolding run_groups
run_groups-Talks build [] = pure-Talks tt
run_groups-Talks build (g ∷ gs) =
    bind-Talks _ _ (run_group-Talks build g) λ _. run_groups-Talks build gs

-- Let `main` be greeted with `Mode::Benchmark`. If it returns, its messages open and close groups and
-- benchmarks in turn up to `End`, and the messages it has taken behind the greeting are, in order,
-- an `Instant` for each `GetInstant` and a `Continue` for each benchmark measured and each group
-- finished. If it waits for ever, it has taken all that came, in the same order, and a reply that
-- its messages ask for is missing: it never waits for one that it has not asked for.
pub main-Talk :
    (build : Build) (gs : List Group) (unused : Bytes) (t : Target) (rest : List DownstreamMessage)
    → t.incoming ≡ greeting unused Mode.benchmark ∷ rest
    → Reaches idle [] ended [] (record t { incoming = rest }) (main build gs t)
unfolding main recv receive greeted
main-Talk build gs unused t rest h = rw h (
    (bind-Talks _ _ (run_groups-Talks build gs) λ _. send-Talks end refl).at
      (record t { incoming = rest }))
