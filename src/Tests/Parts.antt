-- ===== src/Tests/Parts.antt =====
-- The parts around the links at concrete inputs: the demultiplexer, the formatter, attaching to the probe,
-- the timer and the channel of the target, a warm-up, and the driver.
use farcri_rs.Prelude.{
  ℕ, zero, suc, ◌*◌, ◌-◌, ◌/◌, ◌%◌, ◌^◌, Bool, true, false, none, some, List, [], ◌∷◌, codes, ltb,
  equal, if◌then◌else◌, Bytes, ◌≡◌, ◌⊎◌, refl, arith,
}
use farcri_rs.Slip.{buffer, fill_pending}
use farcri_rs.Demux.{Demux, new, wrote, write_pending, poll_fill_buf, measure}
use farcri_rs.Demux.Reads.{session, Splits, session-Splits}
use farcri_rs.Protocol.{bytes}
use farcri_rs.Proxy.CcProtocol.{Floats}
use farcri_rs.Proxy.CyclesFormatter.{Numbers, cycles_formatter}
use farcri_rs.Proxy.CyclesFormatter.Units.{
  IsScaled, RateIsScaled, below_value, thousandth, formatter-IsScaled,
}
use farcri_rs.Proxy.CyclesFormatter.Texts.{IsText, RateIsText, formatter-IsText}
use farcri_rs.Futures.{Attempt, ok, err}
use farcri_rs.Rtt.{Channels}
use farcri_rs.Rtt.Attach.{
  RttError, Session, Elf, control_block_not_found, find_rtt_symbol, rtt_scan_region,
  program_and_get_output,
}
use farcri_rs.Rtt.Attach.Ends.{RunsFrom, program_and_get_output-RunsFrom}
use farcri_rs.Rtt.Attach.Symbol.{IsFirst, find_rtt_symbol-IsFirst}
use farcri_rs.Target.{Target}
use farcri_rs.Bencher.{iter, warm_up}
use farcri_rs.Bencher.WarmUp.{replies, EndsAfter, warm_up-EndsAfter}
use farcri_rs.ProxyLink.{position}
use farcri_rs.Target.SysTick.{Hardware, Turn, now}
use farcri_rs.Target.SysTick.Clock.{now-time}
use farcri_rs.Target.Comm.{write, written, write-written}
use farcri_rs.Proxy.Main.{target_name_of}
use farcri_rs.Proxy.Driver.{Env, cargo_var, driver_command, driver_command-Builds}

-- A log, a test result cut in two, and the rest of the log.
abbrev stream : Demux
stream =
    new
      (buffer (codes "2lo")
        ∷ fill_pending
        ∷ buffer (b'g' ∷ 0x17 ∷ b'1' ∷ b'o' ∷ [])
        ∷ buffer (b'k' ∷ 0x17 ∷ b'2' ∷ b'!' ∷ [])
        ∷ [])
      (wrote 1 ∷ wrote 9 ∷ write_pending ∷ wrote 2 ∷ wrote 1 ∷ [])

abbrev rooms : List Bytes
rooms = (0 ∷ 0 ∷ []) ∷ (0 ∷ []) ∷ (0 ∷ []) ∷ (0 ∷ []) ∷ (0 ∷ []) ∷ []

session-Splits_example : Splits stream (session rooms stream)
session-Splits_example = session-Splits rooms stream

-- The client has read "ok".
read_ok : (session rooms stream).0 ≡ codes "ok"
unfolding session poll_fill_buf measure position
read_ok = refl

-- Fractions for numbers, with one format for all counts of decimals.
abbrev fractions : Floats
fractions = record {
  F64 = ℕ × ℕ;
  of_u64 = λ n. (n, 1);
  divide = λ a b. (a.0 * b.1, a.1 * b.0);
  multiply = λ a b. (a.0 * b.0, a.1 * b.1);
  confidence_level = (95, 100);
  noise_threshold = (1, 100);
  significance_level = (5, 100);
}

abbrev numbers : Numbers fractions
numbers = record {
  lt = λ a b. ltb (a.0 * b.1) (b.0 * a.1);
  powi = λ a n. (a.0 ^ n, a.1 ^ n);
  powi_neg = λ a n. (a.1 ^ n, a.0 ^ n);
  fixed = λ k a. a.0 ∷ a.1 ∷ [];
}

abbrev measured : List (ℕ × ℕ)
measured = (48_000, 1) ∷ (51_000, 1) ∷ []

formatter-IsScaled_example :
    IsScaled []
      (codes "cycles")
      (below_value fractions numbers (50_000, 1))
      (λ k v. fractions.multiply v (thousandth fractions numbers k))
      measured
      ((cycles_formatter fractions numbers).scaled (50_000, 1) measured)
    × RateIsScaled fractions numbers
        (50_000, 1)
        (bytes 16)
        measured
        ((cycles_formatter fractions numbers).scaled_throughputs (50_000, 1) (bytes 16) measured)
formatter-IsScaled_example = formatter-IsScaled fractions numbers (50_000, 1) (bytes 16) measured

formatter-IsText_example :
    IsText fractions numbers []
      (codes "cycles")
      (below_value fractions numbers (48_000, 1))
      (λ k v. fractions.multiply v (thousandth fractions numbers k))
      (48_000, 1)
      ((cycles_formatter fractions numbers).value_text (48_000, 1))
    × RateIsText fractions numbers
        (48_000, 1)
        (bytes 16)
        ((cycles_formatter fractions numbers).throughput_text (bytes 16) (48_000, 1))
formatter-IsText_example = formatter-IsText fractions numbers (48_000, 1) (bytes 16)

-- A core that is halted or not, with how many attempts to attach it still needs.
abbrev Core : Type 0
Core = Bool × ℕ

-- The control block is `true` if it has both channels.
abbrev tries : Bool → ℕ → Attempt Bool RttError × Core
tries h zero = (ok true, (h, zero))
tries h (suc zero) = (ok false, (h, zero))
tries h (suc (suc n)) = (err control_block_not_found, (h, suc n))

abbrev core_session : Session Core Bool
core_session = record {
  core = λ s. (ok tt, s);
  halt = λ s. (ok tt, (true, s.1));
  run = λ s. (ok tt, (false, s.1));
  reset = λ s. (ok tt, (false, s.1));
  download_file = λ path s. (ok tt, s);
  attach_region = λ region s. tries s.0 s.1;
}

abbrev halted : Core → Bool
halted s = s.0

-- No call of `core` or `run` fails here.
abbrev Never : Core → Type 0
Never s = ⊥

abbrev channels : Channels Bool
channels = record {
  up_channels = λ r. 2;
  down_channels = λ r. (if r then 1 else 0);
  read = λ i room r. (some [], r);
  write = λ bs r. (some 0, r);
}

abbrev elf : Elf
elf = record {
  syms = record { st_name = 1; st_value = 7 } ∷ record { st_name = 2; st_value = 0x20000000 } ∷ [];
  strtab = λ i. (if ltb i 2 then some (ok (codes "main")) else some (ok (codes "_SEGGER_RTT")));
}

find_rtt_symbol-IsFirst_example : IsFirst elf (find_rtt_symbol (some elf))
find_rtt_symbol-IsFirst_example = find_rtt_symbol-IsFirst elf

program_and_get_output-RunsFrom_example :
    RunsFrom core_session channels
      (codes "a.elf")
      (rtt_scan_region (λ bs. some elf) (some []))
      (λ n. n * 31_000_000)
      (false, 3)
      (program_and_get_output core_session
        (λ bs. some elf)
        channels
        (codes "a.elf")
        (some [])
        (λ n. n * 31_000_000)
        (false, 3))
program_and_get_output-RunsFrom_example =
    program_and_get_output-RunsFrom core_session channels (λ bs. some elf) (codes "a.elf") (some [])
      (λ n. n * 31_000_000) (false, 3) (λ n. omega arith)

abbrev timer : Hardware
timer = record { interrupts = λ t. t / 2 ^ 24; get_current = λ t. 0xffffff - t % 2 ^ 24 }

-- The timer starts again within the first turn.
abbrev crossing : Turn
crossing = record { first = 16_777_210; value = 16_777_214; second = 16_777_218 }

abbrev quiet : Turn
quiet = record { first = 16_777_226; value = 16_777_230; second = 16_777_234 }

now-time_example :
    (now timer (crossing ∷ quiet ∷ []) ≡ some (16_777_214 % 2 ^ 56))
    ⊎ (now timer (crossing ∷ quiet ∷ []) ≡ some (16_777_230 % 2 ^ 56))
now-time_example =
    now-time timer (record { counts = λ t. refl; counts_down = λ t. refl }) crossing quiet []
      (record { first_le = omega arith; value_le = omega arith })
      (record { first_le = omega arith; value_le = omega arith }) (omega arith) (omega arith)

now_quiet : now timer (crossing ∷ quiet ∷ []) ≡ some 16_777_230
unfolding now
now_quiet = refl

write-written_example : write (2 ∷ 1 ∷ 9 ∷ []) (codes "abc") ≡ written (codes "abc")
write-written_example =
    write-written (2 ∷ 1 ∷ 9 ∷ []) (codes "abc") (omega arith, (omega arith, (omega arith, tt)))
      (omega arith)

-- The second call, of two iterations, exceeds three seconds.
abbrev times : List (ℕ × ℕ)
times = (0, 1_000_000_000) ∷ (1_100_000_000, 3_200_000_000) ∷ []

abbrev warming : Target
warming = record {
  sent = [];
  incoming = replies times [];
  now = λ i. 3 * i;
  reads = 0;
  invocations = 0;
  executions = 0;
}

warm_up-EndsAfter_example :
    EndsAfter 3_000_000_000 times [] 0 0 (warm_up 2 (λ n. iter ∷ []) 3_000_000_000 warming)
warm_up-EndsAfter_example =
    warm_up-EndsAfter (λ n. iter ∷ []) 3_000_000_000 times [] warming (λ i. refl) refl
      (omega arith, omega arith, (omega arith, omega arith, tt)) (omega arith) (omega arith)

abbrev env : Env
env = record {
  var_os = λ n. (if equal n cargo_var then some (codes "/bin/cargo") else none);
  current_exe = some (some (codes "sort-0a1b"));
  args_os = codes "sort" ∷ codes "--bench" ∷ [];
}

driver_command-Builds_example :
    driver_command (codes "/work") env
    ≡ ok (record {
      program = codes "/bin/cargo";
      current_dir = codes "/work";
      args =
          codes "bench"
          ∷ codes "--bench"
          ∷ codes "sort"
          ∷ codes "--no-run"
          ∷ codes "--message-format"
          ∷ codes "json-render-diagnostics"
          ∷ codes "--features"
          ∷ codes "farcri/role_proxy"
          ∷ [];
    })
unfolding target_name_of
driver_command-Builds_example =
    driver_command-Builds b'/' (codes "work") (codes "/bin/cargo") (codes "sort") (codes "0a1b") env
      refl refl refl
