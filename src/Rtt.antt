-- ===== src/Rtt.antt =====
-- The stream of bytes between the proxy and the debug probe: `ReadWriteRtt` of
-- src/proxy/targets/probe_rs.rs, with its two buffers and its accesses in another thread.
pub mod Polls
pub mod ChannelLog
pub mod Buffers
pub mod Streams
pub mod Reads
pub mod Writes
pub mod Rests
pub mod Sessions
pub mod Attach
use farcri_rs.Prelude.{
  ℕ, zero, suc, ◌+◌, ◌-◌, min, Bool, true, false, not, ◌||◌, ◌&&◌, Option, none, some, List, [],
  ◌∷◌, ◌++◌, length, take, drop, replicate, ltb, leb, ◌==◌, if◌then◌else◌, Bytes,
}
use farcri_rs.Buffer.{slice, overwrite}
use farcri_rs.Futures.{Spmc, spmc_new, SpmcPoll, ready, pending, panicked, spmc_poll}

-- The channels of the third-party crate probe_rs_rtt: `read i room` reads at most `room` bytes from
-- the up channel `i`, `write` tells how many bytes the first down channel took; `none` is an error.
pub record Channels (R : Type 0) : Type 0 where
  pub up_channels : R → ℕ
  pub down_channels : R → ℕ
  pub read : ℕ → ℕ → R → Option Bytes × R
  pub write : Bytes → R → Option ℕ × R

pub record Bufs : Type 0 where
  pub read : Bytes
  pub read_pos : ℕ
  pub read_len : ℕ
  pub write : Bytes
  pub write_pos : ℕ
  pub write_len : ℕ

abbrev pub spmc_consumer_read : ℕ
spmc_consumer_read = 0

abbrev pub spmc_consumer_write : ℕ
spmc_consumer_write = 1

abbrev pub num_spmc_consumers : ℕ
num_spmc_consumers = 2

-- What an access does: an error, or the buffers, the flags for reading and writing, the channels, and
-- what it copied to the standard output.
pub data Access (R : Type 0) : Type 0 where
  error : Access R
  accessed : (bufs : Bufs) (stalled_read stalled_write : Bool) (rtt : R) (stdout : Bytes) → Access R

-- The buffers and the flag behind the loop over the up channels.
pub data Up (R : Type 0) : Type 0 where
  up_error : Up R
  up_done : (bufs : Bufs) (stalled : Bool) (rtt : R) (stdout : Bytes) → Up R

-- "The read pointer caught up"
abbrev pub rewind_read : Bufs → Bufs
rewind_read b = if leb b.read_len b.read_pos then record b { read_pos = 0; read_len = 0 } else b

module _ {R : Type 0} (ch : Channels R) where
  -- What becomes of one reading of channel `i`.
  up_read : Option Bytes × R → ℕ → Bufs → Bool → Bytes → (Bufs → Bool → Bytes → R → Up R) → Up R
  up_read (none, r) i b stalled out next = up_error
  up_read (some [], r) i b stalled out next = next b (stalled || i == 0) out r
  up_read (some (x ∷ xs), r) i b stalled out next =
      let b' = record b { read = overwrite b.read_len (x ∷ xs) b.read } in
      if i == 1
      then up_done (record b' { read_len = b.read_len + length (x ∷ xs) }) stalled r out
      else next b' stalled (out ++ (x ∷ xs)) r

  -- The loop over the up channels, from channel `i` on.
  unfoldable pub up_loop : ℕ → ℕ → Bufs → Bool → Bytes → R → Up R
  unfolding up_read
  up_loop zero i b stalled out r = up_done b stalled r out
  up_loop (suc n) i b stalled out r =
      let rest =
        up_read (ch.read i (length b.read - b.read_len) r) i b stalled out (up_loop n (suc i)) in
      if leb (length b.read) b.read_len then up_done b stalled r out else rest

  -- What becomes of one writing of the pending bytes.
  wrote : Option ℕ × R → Bufs → Bool → Bytes → Access R
  wrote (none, r) b stalled out = error
  wrote (some n, r) b stalled out =
      let b' = record b { write_pos = b.write_pos + n } in
      accessed b' stalled (ltb (b.write_pos + n) b.write_len) r out

  -- "Send bytes from `bufs.write` to the first down channel"
  unfoldable pub down : Up R → Access R
  unfolding wrote
  down up_error = error
  down (up_done b stalled r out) =
      if leb b.write_len b.write_pos
      then accessed b stalled false r out
      else if ltb 0 (ch.down_channels r)
      then wrote (ch.write (slice b.write_pos b.write_len b.write) r) b stalled out
      else accessed (record b { write_pos = b.write_len }) stalled false r out

  -- `hit_rtt_inner`, with `halt_on_access` off, as it always is.
  unfoldable pub hit_rtt_inner : Bufs → R → Access R
  unfolding up_loop down
  hit_rtt_inner b r = down (up_loop (ch.up_channels r) 0 (rewind_read b) false [] r)
