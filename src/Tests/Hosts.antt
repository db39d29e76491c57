-- ===== src/Tests/Hosts.antt =====
-- The theorems on src/utils/futures.rs, the probe, the handshake, cargo and cargo-criterion's connection, at
-- concrete inputs.
use farcri_rs.Prelude.{
  Bool, ℕ, zero, suc, ◌≤◌, true, false, Option, none, some, List, [], ◌∷◌, ◌++◌, map, length, take,
  drop, replicate, codes, Bytes, ◌≡◌, refl, sym, ap, subst, arith, length-take, length-append,
  take-length, append-nil, ◌==◌, if◌then◌else◌, ◌<◌,
}
use farcri_rs.Slip.{buffer}
use farcri_rs.Slip.Chunks.{flatten}
use farcri_rs.Futures.{Attempt, ok, err, skip_until_pattern, Spmc, spmc_poll}
use farcri_rs.Futures.Find.{after}
use farcri_rs.Futures.ReadExact.{eof}
use farcri_rs.Futures.Skip.{Skips, skip_until_pattern-Skips}
use farcri_rs.Futures.Wake.{Polled, spmc_poll-Polled}
use farcri_rs.Tests.Readers.{read_exact, read_exact-IsReadExact}
use farcri_rs.Rtt.{Channels, Bufs, hit_rtt_inner}
use farcri_rs.Rtt.Polls.{new, poll_read, poll_write, poll_flush}
use farcri_rs.Rtt.ChannelLog.{Log, IsChannels}
use farcri_rs.Rtt.Buffers.{Accesses, hit_rtt_inner-Accesses}
use farcri_rs.Rtt.Rests.{Returns, polls-Returns}
use farcri_rs.Rtt.Reads.{Reads}
use farcri_rs.Rtt.Writes.{Writes, Flushes}
use farcri_rs.Rtt.Sessions.{
  Call, read, write, flush, live, session, IsStream, new-Flows, session-IsStream,
}
use farcri_rs.ProxyLink.{BencherIo}
use farcri_rs.Handshake as Hands
use farcri_rs.Handshake.{requests}
use farcri_rs.Handshake.Replies.{IsLinked}
use farcri_rs.Handshake.Agreement.{written_by_host, handshake-Agreed}
use farcri_rs.Proxy.CcLink as Cc
use farcri_rs.Proxy.CcLink.{CcLink}
use farcri_rs.Proxy.CcLink.Stream.{send_all, recv_all, frames, recv_all-send_all}
use farcri_rs.Proxy.CcLink.Hello.{Greets, new-Greets}
use farcri_rs.Arch.{cortex_m4f, BuildOpt, build_opt}
use farcri_rs.Proxy.Main.{Opts, Board, info, Step, prepare_build, handshake, port, main_inner}
use farcri_rs.Proxy.Main.Plan.{Follows, plan, main_inner-Follows}
use farcri_rs.Cargo.{json_unescape, compiled}
use farcri_rs.Cargo.Unescape.{has_code, json_escape, json_unescape-escape}
use farcri_rs.Cargo.LinkedPaths.{Prefix, dependency, crate, native, framework, all, prefix, IsPlain}
use farcri_rs.Cargo.Collect.{
  Event, artifact, script, diagnostic, message_of, executables, linked, any_code_in, last_of,
  compiled-Last,
}

-- Fails twice.
abbrev third_time : ℕ → Attempt ℕ ℕ
third_time zero = err 0
third_time (suc zero) = err 1
third_time (suc (suc n)) = ok 7

-- The pattern crosses the two buffers.
abbrev pattern_1 : Bytes
pattern_1 = 1 ∷ 2 ∷ 3 ∷ []

skip_until_pattern-Skips_example : Skips (after pattern_1 (0 ∷ 0 ∷ 5 ∷ 1 ∷ 2 ∷ 3 ∷ 9 ∷ [])) (
    skip_until_pattern read_exact pattern_1
      (map buffer ((0 ∷ 0 ∷ 5 ∷ 1 ∷ []) ∷ (2 ∷ 3 ∷ 9 ∷ []) ∷ []) ++ eof))
skip_until_pattern-Skips_example =
    skip_until_pattern-Skips read_exact read_exact-IsReadExact pattern_1 (0 ∷ 0 ∷ []) (5 ∷ 1 ∷ [])
      ((2 ∷ 3 ∷ 9 ∷ []) ∷ []) refl (omega arith, omega arith, (omega arith, omega arith, tt))

-- A future that is ready at its second poll.
abbrev later_ready : ℕ → Option ℕ × ℕ
later_ready zero = (none, 1)
later_ready (suc n) = (some 42, suc n)

abbrev cell : Spmc ℕ
cell = record { fut = 1; wakers = none ∷ some 5 ∷ []; active_consumer_index = some 0 }

spmc_poll-Polled_example : Polled (later_ready 1) 0 4 cell (spmc_poll later_ready 0 4 cell)
spmc_poll-Polled_example = spmc_poll-Polled later_ready 0 4 cell

-- A probe whose terminal channel holds some bytes and whose down channel takes all, with what has passed.
pub record Probe : Type 0 where
  pub held : Bytes
  pub given : Bytes
  pub taken : Bytes

abbrev probe_read : ℕ → ℕ → Probe → Option Bytes × Probe
probe_read (suc zero) room p = (
  some (take room p.held),
  record p { held = drop room p.held; given = p.given ++ take room p.held },
)
probe_read i room p = (some [], p)

abbrev probe : Channels Probe
probe = record {
  up_channels = λ p. 2;
  down_channels = λ p. 1;
  read = probe_read;
  write = λ bs p. (some (length bs), record p { taken = p.taken ++ bs });
}

abbrev probe_log : Log Probe
probe_log = record { received = λ p. p.given; sent = λ p. p.taken }

abbrev bufs_with_data : Bufs
bufs_with_data = record {
  read = replicate 8 0;
  read_pos = 1;
  read_len = 3;
  write = codes "hello";
  write_pos = 1;
  write_len = 4;
}

-- What the probe promises of a reading of channel `i`.
abbrev Gives : ℕ → ℕ → Probe → Option Bytes × Probe → Type 0
Gives i room p (none, p') = Unit {0}
Gives i room p (some bs, p') =
    (length bs ≤ room) × (p'.given ≡ p.given ++ (if i == 1 then bs else [])) × (p'.taken ≡ p.taken)

probe_read-Gives : (i room : ℕ) (p : Probe) → Gives i room p (probe_read i room p)
probe_read-Gives zero room p = (omega arith, sym (append-nil p.given), refl)
probe_read-Gives (suc zero) room p = (omega (arith, length-take room p.held), refl, refl)
probe_read-Gives (suc (suc i)) room p =
    let other : (suc (suc i) == 1) ≡ false = ground arith in
    (omega arith, rw other (sym (append-nil p.given)), refl)

probe_reads :
    (i room : ℕ) (p : Probe) (bs : Bytes) (p' : Probe)
    → probe_read i room p ≡ (some bs, p')
    → Gives i room p (some bs, p')
probe_reads i room p bs p' e = subst (Gives i room p) e (probe_read-Gives i room p)

-- And of a writing.
abbrev Takes : Bytes → Probe → Option ℕ × Probe → Type 0
Takes bs p (none, p') = Unit {0}
Takes bs p (some n, p') = (n ≤ length bs) × (p'.taken ≡ p.taken ++ take n bs) × (p'.given ≡ p.given)

probe_writes :
    (bs : Bytes) (p : Probe) (n : ℕ) (p' : Probe)
    → probe.write bs p ≡ (some n, p')
    → Takes bs p (some n, p')
probe_writes bs p n p' e =
    subst (Takes bs p) e (omega arith, ap (λ t. p.taken ++ t) (sym (take-length bs)), refl)

probe-IsChannels : IsChannels probe probe_log
probe-IsChannels = record {
  read_fits = λ i room p bs p' e. (probe_reads i room p bs p' e).0;
  read_gives = λ i room p bs p' e. (probe_reads i room p bs p' e).1;
  read_keeps = λ i room p bs p' e. (probe_reads i room p bs p' e).2;
  write_fits = λ bs p n p' e. (probe_writes bs p n p' e).0;
  write_takes = λ bs p n p' e. (probe_writes bs p n p' e).1;
  write_keeps = λ bs p n p' e. (probe_writes bs p n p' e).2;
  has_down = λ p. omega arith;
}

abbrev held_by_probe : Probe
held_by_probe = record { held = codes "ab"; given = []; taken = [] }

hit_rtt_inner-Accesses_example :
    Accesses probe probe_log bufs_with_data held_by_probe
      (hit_rtt_inner probe bufs_with_data held_by_probe)
hit_rtt_inner-Accesses_example =
    hit_rtt_inner-Accesses probe probe_log probe-IsChannels bufs_with_data held_by_probe (record {
      read_pos_le = omega arith;
      read_len_le = omega arith;
      write_pos_le = omega arith;
      write_len_le = omega arith;
    })

polls-Returns_example :
    Returns probe probe_log
      (Reads probe probe_log [] [] 8)
      []
      []
      (poll_read probe 8 1 (true ∷ false ∷ false ∷ []) (new held_by_probe))
    × Returns probe probe_log
        (Writes probe probe_log [] [] (codes "hi"))
        []
        []
        (poll_write probe (codes "hi") 1 (true ∷ false ∷ false ∷ []) (new held_by_probe))
    × Returns probe probe_log
        (Flushes probe probe_log [] [])
        []
        []
        (poll_flush probe 1 (true ∷ false ∷ false ∷ []) (new held_by_probe))
polls-Returns_example =
    polls-Returns probe probe_log probe-IsChannels 8 (codes "hi") 1 (true ∷ []) [] [] []
      (new held_by_probe) (new-Flows probe probe_log held_by_probe refl refl)

-- A write, a flush whose access is under way, a read that waits for it, and both again.
abbrev calls : List Call
calls =
    write (codes "hi") 1 (true ∷ [])
    ∷ flush 1 (false ∷ false ∷ [])
    ∷ read 8 2 (false ∷ [])
    ∷ flush 1 (true ∷ true ∷ [])
    ∷ read 8 2 (true ∷ [])
    ∷ []

session-IsStream_example :
    IsStream probe probe_log (session probe calls (live [] [] (new held_by_probe)))
session-IsStream_example =
    session-IsStream probe probe_log probe-IsChannels calls held_by_probe refl refl

abbrev random : Bytes
random = replicate 14 7 ++ (1 ∷ 2 ∷ [])

abbrev target_io : BencherIo
target_io = record { input = (0 ∷ []) ∷ written_by_host random 1 ∷ []; output = [] }

handshake-Agreed_example :
    IsLinked (written_by_host random 1) [] (Hands.new target_io (replicate 8 0))
    × (Hands.connect read_exact random 1 (
          map buffer (
            (take 29 (3 ∷ written_by_host random 1) ++ drop 29 (3 ∷ written_by_host random 1)) ∷ [])
          ++ eof)
        ≡ Hands.connected eof (written_by_host random 1))
unfolding requests Hands.new
handshake-Agreed_example =
    handshake-Agreed read_exact read_exact-IsReadExact random 1 target_io (replicate 8 0) (0 ∷ [])
      (3 ∷ []) (take 29 (3 ∷ written_by_host random 1)) (drop 29 (3 ∷ written_by_host random 1)) []
      refl refl (omega arith) (refl, tt) (refl, tt) refl (omega arith, omega arith, tt) refl refl

abbrev greeting : Bytes
greeting = codes "cargo-criterion" ++ (1 ∷ 0 ∷ 1 ∷ [])

new-Greets_example :
    Greets 0 1 0 greeting
      (5 ∷ [])
      (Cc.new read_exact 0 1 0 (map buffer ((greeting ++ (5 ∷ [])) ∷ []) ++ eof))
new-Greets_example =
    new-Greets read_exact read_exact-IsReadExact 0 1 0 greeting (5 ∷ [])
      ((greeting ++ (5 ∷ [])) ∷ []) refl (omega arith, tt) refl

abbrev messages : List Bytes
messages = codes "one" ∷ [] ∷ codes "three" ∷ []

abbrev fresh : CcLink
fresh = record { cc_stream = []; written = [] }

recv_all-send_all_example :
    (send_all messages fresh
      ≡ some (record fresh { written = fresh.written ++ flatten (frames messages ∷ []) }))
    × (recv_all read_exact
          (length messages)
          (record { cc_stream = map buffer (frames messages ∷ []) ++ eof; written = [] })
        ≡ Cc.ok messages (record { cc_stream = eof; written = [] }))
recv_all-send_all_example =
    recv_all-send_all read_exact read_exact-IsReadExact messages fresh (frames messages ∷ []) []
      (omega arith, (omega arith, (omega arith, tt))) (omega arith, tt) refl

abbrev quoted : Bytes
quoted = codes "C:\\dir\n"

json_unescape-escape_example :
    json_unescape (json_escape quoted) ≡ (if has_code quoted then none else some quoted)
json_unescape-escape_example = json_unescape-escape quoted

abbrev events : List Event
events =
    artifact (record { name = codes "lib"; kind = codes "lib" ∷ [] }) none
    ∷ script (record { kind = some native; path = codes "/a" } ∷ [])
    ∷ artifact (record { name = codes "sort"; kind = codes "bench" ∷ [] }) (some (codes "/b/sort"))
    ∷ diagnostic
    ∷ []

prefix_long : (p : Prefix) → 4 ≤ length (prefix p)
prefix_long dependency = omega arith
prefix_long crate = omega arith
prefix_long native = omega arith
prefix_long framework = omega arith
prefix_long all = omega arith

-- No prefix has room in a short path.
short-IsPlain : (path : Bytes) → length path < 4 → IsPlain path
short-IsPlain path h p before after e = omega (
  arith,
  ap length e,
  length-append {0} before (prefix p ++ after),
  length-append {0} (prefix p) after,
  prefix_long p,
)

compiled-Last_example : compiled (map message_of events) ≡ (
    if any_code_in events then none else elim (last_of none (executables events)) [
      | none ↦ none
      | some path ↦ some (path, linked events)
    ])
compiled-Last_example = compiled-Last events ((short-IsPlain (codes "/a") (omega arith), tt), tt)

-- The paths, less their prefixes.
sort_is_built : compiled (map message_of events) ≡ some (codes "/b/sort", codes "/a" ∷ [])
unfolding compiled json_escape has_code
sort_is_built = refl

abbrev options : Opts
options = record { bench = true; arch = none; dry_run = false; log_level = info }

abbrev board : Board
board = record { target_arch = cortex_m4f; cargo_features = codes "nucleo" ∷ []; rustc_flags = [] }

-- The handshake does not work.
abbrev but_handshake : Step → Bool
but_handshake handshake = false
but_handshake s = true

abbrev cortex_m4f_opt : BuildOpt
cortex_m4f_opt = record { target_triple = codes "thumbv7em-none-eabihf"; target_features = [] }

main_inner-Follows_example :
    Follows but_handshake
      (prepare_build ∷ plan options board (codes "sort") (port 7) cortex_m4f_opt)
      true
      (main_inner but_handshake options board (codes "sort") (port 7))
unfolding build_opt
main_inner-Follows_example =
    main_inner-Follows but_handshake options board (codes "sort") (port 7) cortex_m4f_opt refl refl
