-- ===== src/Rtt/Polls.antt =====
-- The polls of `ReadWriteRtt` of src/proxy/targets/probe_rs.rs. What is awaited, the access in the other
-- thread or a delay, is ready or not at each turn of a loop; these answers are a list.
use farcri_rs.Prelude.{
  ℕ, ◌+◌, ◌-◌, min, Bool, true, false, ◌||◌, Option, none, some, List, [], ◌∷◌, ◌++◌, length, take,
  replicate, ltb, leb, if◌then◌else◌, Bytes,
}
use farcri_rs.Buffer.{slice, overwrite}
use farcri_rs.Futures.{Spmc, spmc_new, get_or_insert, SpmcPoll, ready, pending, panicked, spmc_poll}
use farcri_rs.Rtt.{
  Channels, Bufs, Access, error, accessed, hit_rtt_inner, spmc_consumer_read, spmc_consumer_write,
  num_spmc_consumers,
}

-- The state, less the length of a delay. What an access in the other thread does is computed when it
-- starts; `finished` tells that its outcome has been taken.
pub data Rt (R : Type 0) : Type 0 where
  idle : (bufs : Bufs) (rtt : R) (delay_read delay_write : Bool) → Rt R
  access : (join_handle : Spmc (Access R)) (finished : Bool) → Rt R
  invalid : Rt R

-- With what the accesses have copied to the standard output.
pub record ReadWriteRtt (R : Type 0) : Type 0 where
  pub st : Rt R
  pub stdout : Bytes

pub data Turn (R A : Type 0) : Type 0 where
  give : A → ReadWriteRtt R → Turn R A
  again : ReadWriteRtt R → Turn R A
  wait : ReadWriteRtt R → Turn R A
  fail : ReadWriteRtt R → Turn R A
  panic : Turn R A

-- `unfinished`: there are no more answers.
pub data Polled (R A : Type 0) : Type 0 where
  gives : A → ReadWriteRtt R → Polled R A
  waits : ReadWriteRtt R → Polled R A
  fails : ReadWriteRtt R → Polled R A
  unfinished : ReadWriteRtt R → Polled R A
  panics : Polled R A

-- `ReadWriteRtt::new`
abbrev pub new : {R : Type 0} → R → ReadWriteRtt R
new r = record {
  st =
      idle
        (record {
          read = replicate 1024 0;
          read_pos = 0;
          read_len = 0;
          write = replicate 1024 0;
          write_pos = 0;
          write_len = 0;
        })
        r false false;
  stdout = [];
}

abbrev pub with_st : {R : Type 0} → ReadWriteRtt R → Rt R → ReadWriteRtt R
with_st s st = record s { st = st }

-- The access starts, and does what it does.
unfoldable pub starts : {R : Type 0} → Access R → ReadWriteRtt R → ReadWriteRtt R
starts error s = with_st s (access (spmc_new num_spmc_consumers error) false)
starts (accessed b sr sw r out) s = record {
  st = access (spmc_new num_spmc_consumers (accessed b sr sw r out)) false;
  stdout = s.stdout ++ out;
}

-- `ready!(join_handle.poll(..)).unwrap()` and what follows. A finished handle panics when it is polled.
unfoldable pub joined :
    {R A : Type 0}
    → Bool
    → Spmc (Access R)
    → SpmcPoll (Access R) (Access R)
    → ReadWriteRtt R
    → Turn R A
joined finished active (pending s') s = wait (with_st s (access s' finished))
joined finished active panicked s = panic
joined true active (ready x woken) s = panic
joined false active (ready error woken) s = fail (with_st s (access active true))
joined false active (ready (accessed b sr sw r out) woken) s = again (with_st s (idle b r sr sw))

unfoldable pub answer : {R : Type 0} → Bool → Access R → Option (Access R) × Access R
answer now x = if now then (some x, x) else (none, x)

-- "If there's no bytes left to flush, reset the write pointer."
abbrev pub rewind_write : Bufs → Bufs
rewind_write b =
    if leb b.write_len b.write_pos then record b { write_pos = 0; write_len = 0 } else b

abbrev pub stored : Bytes → Bufs → ℕ × Bufs
stored buf b =
    let n = min (length b.write - b.write_len) (length buf) in
    (
      n,
      record b { write = overwrite b.write_len (take n buf) b.write; write_len = b.write_len + n },
    )

module _ {R : Type 0} (ch : Channels R) where
  -- `hit_rtt`, by a consumer with a waker.
  unfoldable pub hit_rtt : {A : Type 0} → ℕ → ℕ → Bool → Rt R → ReadWriteRtt R → Turn R A
  unfolding starts joined answer
  hit_rtt c w now (idle b r dr dw) s = again (starts (hit_rtt_inner ch b r) s)
  hit_rtt c w now (access sp finished) s =
      let active = record sp {
        active_consumer_index = some (get_or_insert sp.active_consumer_index c);
      } in
      joined finished active (spmc_poll (answer (now || finished)) c w sp) s
  hit_rtt c w now invalid s = panic

  -- A turn of the loop of `poll_fill_buf`.
  unfoldable pub fill_turn : ℕ → Bool → Rt R → ReadWriteRtt R → Turn R Bytes
  unfolding hit_rtt
  fill_turn w now (idle b r dr dw) s =
      if ltb b.read_pos b.read_len
      then give (slice b.read_pos b.read_len b.read) s
      else if dr
      then (if now then again (with_st s (idle b r false dw)) else wait s)
      else hit_rtt spmc_consumer_read w now (idle b r dr dw) s
  fill_turn w now st s = hit_rtt spmc_consumer_read w now st s

  -- A turn of the loop of `poll_write`.
  unfoldable pub write_turn : Bytes → ℕ → Bool → Rt R → ReadWriteRtt R → Turn R ℕ
  unfolding hit_rtt
  write_turn buf w now (idle b r dr dw) s =
      if ltb b.write_len (length b.write) || leb b.write_len b.write_pos
      then (let (n, b') = stored buf (rewind_write b) in give n (with_st s (idle b' r dr dw)))
      else if dw
      then (if now then again (with_st s (idle b r dr false)) else wait s)
      else hit_rtt spmc_consumer_write w now (idle b r dr dw) s
  write_turn buf w now st s = hit_rtt spmc_consumer_write w now st s

  -- A turn of the loop of `poll_flush`.
  unfoldable pub flush_turn : ℕ → Bool → Rt R → ReadWriteRtt R → Turn R (Unit {0})
  unfolding hit_rtt
  flush_turn w now (idle b r dr dw) s =
      if leb b.write_len b.write_pos
      then give tt (with_st s (idle (record b { write_pos = 0; write_len = 0 }) r dr dw))
      else if dw
      then (if now then again (with_st s (idle b r dr false)) else wait s)
      else hit_rtt spmc_consumer_write w now (idle b r dr dw) s
  flush_turn w now st s = hit_rtt spmc_consumer_write w now st s

abbrev pub turned : {R A : Type 0} → Turn R A → (ReadWriteRtt R → Polled R A) → Polled R A
turned (give a s) next = gives a s
turned (again s) next = next s
turned (wait s) next = waits s
turned (fail s) next = fails s
turned panic next = panics

-- A loop of turns.
unfoldable pub poll_loop :
    {R A : Type 0}
    → (Bool → Rt R → ReadWriteRtt R → Turn R A)
    → List Bool
    → ReadWriteRtt R
    → Polled R A
poll_loop turn [] s = unfinished s
poll_loop turn (now ∷ answers) s = turned (turn now s.st s) (poll_loop turn answers)

-- `consume`
unfoldable pub consume : {R : Type 0} → ℕ → Rt R → ReadWriteRtt R → Turn R (Unit {0})
consume amt (idle b r dr dw) s =
    if leb (b.read_pos + amt) b.read_len
    then give tt (with_st s (idle (record b { read_pos = b.read_pos + amt }) r dr dw))
    else panic
consume amt _ s = panic

unfoldable pub consumed : {R A : Type 0} → A → Turn R (Unit {0}) → Polled R A
consumed a (give _ s) = gives a s
consumed a (again s) = unfinished s
consumed a (wait s) = waits s
consumed a (fail s) = fails s
consumed a panic = panics

-- What `poll_read` copies out of the buffer that it was given.
unfoldable pub taken : {R : Type 0} → ℕ → Polled R Bytes → Polled R Bytes
unfolding consumed consume
taken room (gives buf s) = let n = min (length buf) room in consumed (take n buf) (consume n s.st s)
taken room (waits s) = waits s
taken room (fails s) = fails s
taken room (unfinished s) = unfinished s
taken room panics = panics

module _ {R : Type 0} (ch : Channels R) where
  unfoldable pub poll_read : ℕ → ℕ → List Bool → ReadWriteRtt R → Polled R Bytes
  unfolding taken poll_loop fill_turn
  poll_read room w answers s = taken room (poll_loop (fill_turn ch w) answers s)

  unfoldable pub poll_write : Bytes → ℕ → List Bool → ReadWriteRtt R → Polled R ℕ
  unfolding poll_loop write_turn
  poll_write buf w answers s = poll_loop (write_turn ch buf w) answers s

  unfoldable pub poll_flush : ℕ → List Bool → ReadWriteRtt R → Polled R (Unit {0})
  unfolding poll_loop flush_turn
  poll_flush w answers s = poll_loop (flush_turn ch w) answers s
