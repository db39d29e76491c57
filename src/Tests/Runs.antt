-- ===== src/Tests/Runs.antt =====
-- The theorems on src/bencher/ and on the front-ends of src/proxy/ at concrete inputs.
use farcri_rs.Prelude.{
  ◌<◌, arith, replicate, take, ℕ, ◌+◌, ◌*◌, Bool, true, false, Option, none, some, List, [], ◌∷◌,
  ◌++◌, map, length, leb, if◌then◌else◌, Bytes, ◌≡◌, refl,
}
use farcri_rs.Time.{add_u64, sub_u64}
use farcri_rs.Protocol.{
  Mode, DownstreamMessage, kind, greeting, continue, instant, UpstreamMessage, get_instant,
  beginning_benchmark_group, finished_benchmark_group, end,
}
use farcri_rs.Target.{
  Target, Outcome, done, waiting, send, recv, receive, now, expect_instant, value, wait_continue,
  expect_continue,
}
use farcri_rs.Target.Replies.{idle, ended, expected, Reaches}
use farcri_rs.Bencher.{
  Closure, iter, bench, common, sample, warm_up, warm_up_loop, bench_loop, invoke, calls, call,
  call_iter, assert_iterated, now_if, elapsed_since, run_routine, num_samples_of,
  num_iters_per_sample_of,
}
use farcri_rs.Bencher.Criterion.{
  Build, Group, single, no_function, raw_id, run_mode, bench_function_inner, main, run_groups,
  run_group, benchmark_group, kept_name, or_panic, run_actions, drop_group, greeted,
}
use farcri_rs.Bencher.Conversation.{main-Talk}
use farcri_rs.Bencher.Names.{kept_name-IsPrev}
use farcri_rs.Str.{IsPrev}
use farcri_rs.Bencher.Measure.{differences, bench-iter, test_mode_waits}
use farcri_rs.Proxy.CcProtocol as Cc
use farcri_rs.Proxy.CcProtocol.{Floats}
use farcri_rs.Proxy.CcFront as CcFront
use farcri_rs.Proxy.CcFront.{Formatter, Front, serve_value_formatter}
use farcri_rs.Proxy.CcFront.Serve.{Served, serve_value_formatter-Served}
use farcri_rs.Proxy.CcFront.Turns.{Answered}
use farcri_rs.Proxy.CcFront.Answers.{run_frontend-Answered}
use farcri_rs.Proxy.DumbFront as DumbFront
use farcri_rs.Proxy.DumbFront.{without_finished_groups, times, readings, run_frontend-unanswered}
use farcri_rs.Proxy.System.{Agreed, main-Agreed}

abbrev try_push_str : Bytes → Bytes → Option Bytes
try_push_str buf s = if leb (length (buf ++ s)) 128 then some (buf ++ s) else none

abbrev build : Build
build = record { debug_assertions = false; try_push_str = try_push_str; fuel = 2 }

abbrev closure : Closure
closure n = iter ∷ []

abbrev groups : List Group
groups = single (b'g' ∷ []) closure ∷ []

-- The warm-up takes four seconds.
abbrev answers : List DownstreamMessage
answers = instant 0 ∷ instant 4_000_000_000 ∷ continue ∷ continue ∷ []

abbrev target : Target
target = record {
  sent = [];
  incoming = greeting [] Mode.benchmark ∷ answers;
  now = λ i. 3 * i;
  reads = 0;
  invocations = 0;
  executions = 0;
}

abbrev floats : Floats
floats = record {
  F64 = ℕ;
  of_u64 = λ n. n;
  divide = λ a b. a;
  multiply = λ a b. a * b;
  confidence_level = 95;
  noise_threshold = 1;
  significance_level = 5;
}

abbrev formatter : Formatter floats
formatter = record {
  value_text = λ v. v ∷ [];
  throughput_text = λ tp v. v ∷ [];
  scaled = λ v vs. ([], vs);
  scaled_throughputs = λ v tp vs. ([], vs);
  scaled_for_machines = λ vs. ([], vs);
}

abbrev front : Front floats
front = record {
  from_cc = Cc.format_value 5 ∷ Cc.continue ∷ Cc.continue ∷ [];
  to_cc = [];
  to_target = [];
  clock = λ i. 4_000_000_000 * i;
  reads = 0;
  current_group = none;
  current_benchmark = none;
}

main-Agreed_example : Agreed floats formatter front answers (main build groups target)
main-Agreed_example =
    main-Agreed build groups [] target answers floats formatter front refl refl refl (refl, refl) tt

main-Talk_example :
    Reaches idle [] ended [] (record target { incoming = answers }) (main build groups target)
main-Talk_example = main-Talk build groups [] target answers refl

abbrev messages : List UpstreamMessage
messages = get_instant ∷ beginning_benchmark_group (b'g' ∷ []) ∷ finished_benchmark_group ∷ end ∷ []

run_frontend-Answered_example :
    Answered floats formatter ended
      (expected messages)
      front
      (CcFront.run_frontend floats formatter messages front)
run_frontend-Answered_example =
    run_frontend-Answered floats formatter idle messages front refl (refl, refl) tt

serve_value_formatter-Served_example :
    Served floats formatter front.from_cc front (serve_value_formatter floats formatter front)
serve_value_formatter-Served_example = serve_value_formatter-Served floats formatter front tt

bench-iter_example :
    (t' : Target) × (bench closure 2 3 target ≡ done (differences target.now 0 3) t')
    × (t'.executions ≡ 0 + 2 * 3)
    × (t'.sent ≡ [])
    × (t'.incoming ≡ target.incoming)
bench-iter_example = bench-iter closure 2 3 target (λ i. refl)

abbrev silent : Target
silent = record target { incoming = [] }

test_mode_waits_example :
    (t' : Target) × (run_mode build Mode.test (raw_id build [] none no_function) closure silent
      ≡ done tt t')
    × (t'.sent ≡ [])
    × (bench_function_inner build Mode.test [] none no_function closure silent ≡ waiting t')
test_mode_waits_example = test_mode_waits build [] none no_function closure silent (λ i. refl) refl

run_frontend-unanswered_example :
    let replies = DumbFront.run_frontend (λ i. i) 0 messages in
    (map kind replies ≡ expected (without_finished_groups messages))
    × (times replies ≡ readings (λ i. i) 0 (length (times replies)))
run_frontend-unanswered_example = run_frontend-unanswered (λ i. i) 0 messages

abbrev is_done : {A : Type 0} → Outcome A → Bool
is_done (done a t) = true
is_done _ = false

-- The run above returns.
main_returns : is_done (main build groups target) ≡ true
unfolding main run_groups run_group benchmark_group kept_name or_panic run_actions
    bench_function_inner run_mode drop_group greeted common sample warm_up warm_up_loop bench
    bench_loop invoke calls call call_iter assert_iterated now_if elapsed_since run_routine
    num_samples_of num_iters_per_sample_of send recv receive now expect_instant value wait_continue
    expect_continue single add_u64 sub_u64
main_returns = refl

abbrev ascii_name : Bytes
ascii_name = replicate 129 97

kept_name-IsPrev_example :
    (r : ℕ) × (kept_name build ascii_name ≡ some (take r ascii_name))
    × IsPrev ascii_name 128 r
    × (r < 128)
kept_name-IsPrev_example = kept_name-IsPrev build ascii_name refl (omega arith)

-- "aa...é", with the second byte of the last scalar at the capacity.
abbrev cut_name : Bytes
cut_name = replicate 127 97 ++ 0xc3 ∷ 0xa9 ∷ []
