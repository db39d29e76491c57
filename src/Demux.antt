-- ===== src/Demux.antt =====
-- The demultiplexer of src/proxy/targets/demux.rs: one stream of bytes, in chunks that name their
-- channel, gives a primary stream and a log, which goes to the standard output. The readers of
-- Slip give the bytes; the standard output is the list of what the polls of its writes will give.
pub mod Split
pub mod Keeps
pub mod Turns
pub mod Fills
pub mod Reads
use farcri_rs.Prelude.{
  ℕ, zero, suc, ◌+◌, ◌*◌, min, Option, none, some, List, [], ◌∷◌, ◌++◌, length, take, drop, ◌==◌,
  if◌then◌else◌, Bytes,
}
use farcri_rs.Buffer.{overwrite}
use farcri_rs.Slip.{Fill, buffer, fill_error, fill_pending, put_back}
use farcri_rs.ProxyLink.{position}

pub data State : Type 0 where
  header primary log : State

abbrev pub channel_primary : ℕ
channel_primary = 0x31

abbrev pub channel_log : ℕ
channel_log = 0x32

abbrev pub delim : ℕ
delim = 0x17

-- What one `poll_write` of the standard output gives. It takes no more than it is given.
pub data LogWrite : Type 0 where
  wrote : ℕ → LogWrite
  write_error : LogWrite
  write_pending : LogWrite

-- `Demux`, with what the standard output has taken.
pub record Demux : Type 0 where
  pub inner : List Fill
  pub st : State
  pub writes : List LogWrite
  pub log_out : Bytes

-- `Demux::new`
abbrev pub new : List Fill → List LogWrite → Demux
new inner writes = record { inner = inner; st = header; writes = writes; log_out = [] }

-- `consume` of the reader, behind a poll that gave a buffer.
abbrev pub consume_inner : ℕ → List Fill → List Fill
consume_inner n (buffer bs ∷ r) = put_back (drop n bs) r
consume_inner n r = r

-- What `poll_fill_buf` gives, with the demultiplexer behind it.
pub data Filled : Type 0 where
  filled : Bytes → Demux → Filled
  failed : ℕ → Demux → Filled
  waits : Demux → Filled
  panicked : Filled
  out_of_fuel : Filled

-- A turn of its loop.
pub data Turn : Type 0 where
  again : Demux → Turn
  done : Filled → Turn

abbrev pub consumed : ℕ → Demux → Demux
consumed n d = record d { inner = consume_inner n d.inner }

abbrev pub unwrap_or : Option ℕ → ℕ → ℕ
unwrap_or none k = k
unwrap_or (some n) k = n

unfoldable pub payload_len : Bytes → ℕ
payload_len buf = unwrap_or (position delim buf) (length buf)

-- In state `Header`, by the first byte.
unfoldable pub header_turn : ℕ → Demux → Demux
header_turn b d =
    if b == channel_primary
    then record (consumed 1 d) { st = primary }
    else if b == channel_log
    then record (consumed 1 d) { st = log }
    else if b == delim
    then consumed 1 d
    else record d { st = primary }

-- The payload is written to the standard output.
unfoldable pub log_turn : List LogWrite → Bytes → Demux → Turn
log_turn [] payload d = done (waits d)
log_turn (write_pending ∷ w) payload d = done (waits (record d { writes = w }))
log_turn (wrote n ∷ w) payload d =
    let m = min n (length payload) in
    again (record (consumed m d) { writes = w; log_out = d.log_out ++ take m payload })
log_turn (write_error ∷ w) payload d = again (record (consumed (length payload) d) { writes = w })

-- In the other states, by the length of the payload.
unfoldable pub payload_turn : State → ℕ → Bytes → Demux → Turn
unfolding log_turn
payload_turn s zero buf d = again (record (consumed 1 d) { st = header })
payload_turn header (suc n) buf d = done panicked
payload_turn log (suc n) buf d = log_turn d.writes (take (suc n) buf) d
payload_turn primary (suc n) buf d = done (filled (take (suc n) buf) d)

unfoldable pub buffer_turn : State → ℕ → Bytes → Demux → Turn
unfolding header_turn payload_turn payload_len
buffer_turn header b bs d = again (header_turn b d)
buffer_turn s b bs d = payload_turn s (payload_len (b ∷ bs)) (b ∷ bs) d

unfoldable pub turn : List Fill → Demux → Turn
unfolding buffer_turn
turn [] d = done (waits d)
turn (fill_pending ∷ r) d = done (waits (record d { inner = r }))
turn (fill_error e ∷ r) d = done (failed e (record d { inner = r }))
turn (buffer [] ∷ r) d = done panicked
turn (buffer (b ∷ bs) ∷ r) d = buffer_turn d.st b bs d

after : Turn → (Demux → Filled) → Filled
after (again d) next = next d
after (done f) next = f

-- The loop of `poll_fill_buf`, with fuel.
unfoldable pub fill_loop : ℕ → Demux → Filled
unfolding turn after
fill_loop zero d = out_of_fuel
fill_loop (suc n) d = after (turn d.inner d) (fill_loop n)

-- The bytes that a reader has.
abbrev pub bytes_of : List Fill → Bytes
bytes_of [] = []
bytes_of (buffer bs ∷ r) = bs ++ bytes_of r
bytes_of (fill_error e ∷ r) = bytes_of r
bytes_of (fill_pending ∷ r) = bytes_of r

abbrev pub header_left : State → ℕ
header_left header = 1
header_left _ = 0

-- More turns than there are.
unfoldable pub measure : Demux → ℕ
measure d = 2 * length (bytes_of d.inner) + length d.writes + header_left d.st

-- `Demux::poll_fill_buf`
unfoldable pub poll_fill_buf : Demux → Filled
unfolding fill_loop
poll_fill_buf d = fill_loop (suc (measure d)) d

-- `Demux::consume`
unfoldable pub consume : ℕ → Demux → Demux
consume amt d = consumed amt d

-- What `poll_read` gives: how many bytes, with the caller's buffer behind it; or what
-- `poll_fill_buf` gave.
pub data Read : Type 0 where
  read : ℕ → Bytes → Demux → Read
  not_read : Filled → Read

unfoldable pub copied : Bytes → Filled → Read
unfolding consume
copied buf (filled my_buf d) =
    let num_bytes_read = min (length my_buf) (length buf) in
    read num_bytes_read (overwrite 0 (take num_bytes_read my_buf) buf) (consume num_bytes_read d)
copied buf f = not_read f

-- `Demux::poll_read`
unfoldable pub poll_read : Bytes → Demux → Read
unfolding copied
poll_read buf d = copied buf (poll_fill_buf d)
