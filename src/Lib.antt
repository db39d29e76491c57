-- ===== src/Lib.antt =====
-- farcri-rs, a benchmark harness for embedded targets: the code that runs on the target and
-- measures, and the proxy on the host between the target and cargo-criterion.
--
-- The parts and how they interact. The target runs the user's groups of benchmarks
-- (src/bencher/mod.rs, bencher.rs, func.rs, analysis.rs) and sends messages (src/bencher/protocol.rs)
-- through its packet link (src/bencher/proxylink.rs), which frames them with SLIP in one buffer. The
-- host builds the target's program with cargo (src/cargo.rs), reaches it through a debug probe
-- (src/proxy/targets/probe_rs.rs), meets it in a handshake (src/proxy/targetlink.rs), takes the frames
-- apart (src/proxy/targetlink/slip.rs), and a front-end (src/proxy/ccfront.rs or src/proxy/dumbfront.rs)
-- answers the target and passes the measurements on. What the target is built with follows from its
-- architecture (src/proxy/targets/mod.rs).
--
-- The files, by what they model:
--   Prelude: the names that the others share, Boolean tests and lists over the native numbers.
--   Slip: src/proxy/targetlink/slip.rs. `process` is the state machine, `poll` one poll of the future
--     `ReadFrame` over the list of what the reader's polls give, `escape_frame` the writer.
--   ProxyLink: src/bencher/proxylink.rs. `recv_step` is a turn of the loop of `recv`, `send` is
--     `send`; `io_read` and `io_write` stand for `BencherIo` of src/target/mod.rs, over a list of what
--     the polls of the down channel find. Buffer holds slices of a buffer and writes into it, for this
--     and the probe.
--   Futures: src/utils/futures.rs. `retry_on_fail`, `skip_until_pattern` and `Spmc`, of which `spmc_poll`
--     is one poll with a waker. Futures.ReadExact states what is relied on of tokio's `read_exact`, a
--     parameter wherever it is called.
--   Rtt: src/proxy/targets/probe_rs.rs. `hit_rtt_inner` is one access to the channels, which are a
--     parameter; Rtt.Polls has the states of `ReadWriteRtt` and its polls, as loops of turns over the
--     answers of what they await. What has passed over the channels, by which the theorems speak of the
--     streams, is a reading of the channels' own state (`Log` in Rtt.ChannelLog).
--     Rtt.Attach: flashing, the search for the RTT symbol, the loop of `attach_rtt` and `CoreHaltGuard`, over the
--     session with the probe, which is a parameter.
--   Demux: src/proxy/targets/demux.rs. `turn` is a turn of the loop of `poll_fill_buf`; Demux.Split has the two
--     channels of a stream byte by byte. No module of the proxy includes that file.
--   Handshake: `new` is `ProxyLink::new` on the target, `connect` is `TargetLink::new` on the host.
--     TargetLink: the host's `recv` and `send` of src/proxy/targetlink.rs.
--   Serde: the loop and the look at bytes of the visitors in src/utils/stdserde.rs.
--   Cargo: src/cargo.rs. `compiled` is what `compile_self` makes of the messages, and `json_unescape`.
--   Fmt, Str, Time: src/utils/fmt.rs, src/utils/strs.rs, src/bencher/time.rs.
--   Arch: `Arch` and `BuildOpt` of src/proxy/targets/mod.rs; Arch.Text its `Display` and `FromStr`.
--   Protocol: the messages. Target: the link and the counter as the benchmark code sees them, a state
--     passed along by do blocks, with panics and waiting as outcomes. Target.Replies: which message may
--     follow which, and which replies they ask for; Target.Effects: the operations in those terms.
--     Target.SysTick: src/target/cortex_m_time.rs, `now` over the three accesses of each turn, with the
--     timer and its interrupts as functions of the time. Target.Comm: `Comm::write` of src/target/logger_rtt.rs.
--   Bencher: `Bencher`, `Function` and `analysis::common`. Bencher.Criterion: `Criterion`,
--     `BenchmarkGroup`, `BenchmarkId` and `main`; the user's calls are lists of groups and actions.
--   Proxy: the front-ends; CcProtocol and CcFront with cargo-criterion, DumbFront without; CcLink
--     is the connection below CcFront, and System puts the target and CcFront together. Main has
--     the steps of `main_inner` of src/proxy/mod.rs and the arguments of cargo. CyclesFormatter:
--     src/proxy/formatter.rs, over any numbers. Targets: the boards and their set-ups,
--     src/proxy/targets/mod.rs, ldscript.rs and the board of probe_rs.rs. Driver: src/driver.rs, and the command for
--     cargo of src/cargo.rs.
--   Tests: the theorems at concrete inputs.
--
-- Bounds and fuel. `usize` of the target has 32 bits, `u64` wraps where the source wraps. `recv` has
-- fuel for its turns; fuel above `measure` is enough, which is a theorem. `from_str` has one more unit
-- of fuel than the text has bytes, which is enough, as its theorem shows. The loop of `warm_up` has
-- fuel given from outside, since it ends only if the clock of the host advances; as much as there are calls
-- until then is enough. The handshakes have a turn for each byte that there is to read, and one more. A
-- poll of the probe's stream has as many turns as it has answers, and says so if they are used up. The loop of
-- the demultiplexer has more turns than its `measure`, and that of `attach_rtt` 18, which the delays make
-- enough to reach its timeout.
--
-- Not modelled: serde_cbor and serde_json_core (the links carry whole messages, or the bytes of an
-- encoded message; cargo's messages come as their fields), the operations on `f64` and `ArrayString`
-- (parameters), what probe_rs, probe_rs_rtt and goblin do (parameters), the parser of the command line, the
-- subprocesses, logging, errors of writers and timeouts of the links (a message that does not come is an
-- error), macros and static cells.
pub mod Prelude
pub mod Buffer
pub mod Slip
pub mod Futures
pub mod ProxyLink
pub mod Fmt
pub mod Arch
pub mod Time
pub mod Protocol
pub mod Demux
pub mod Serde
pub mod TargetLink
pub mod Target
pub mod Str
pub mod Bencher
pub mod Proxy
pub mod Rtt
pub mod Cargo
pub mod Handshake
pub mod Tests
