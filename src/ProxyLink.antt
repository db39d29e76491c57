-- ===== src/ProxyLink.antt =====
-- The target's end of the link, src/bencher/proxylink.rs: `ProxyLink::recv` and `ProxyLink::send`
-- over one packet buffer, with `BencherIo::read` and `write` of src/target/mod.rs below them.
-- The decoder and the encoder of serde_cbor are no part of this file: `recv` ends with the bytes
-- that it hands to the decoder, and `send` begins with those that the encoder leaves in the buffer.
pub mod Slices
pub mod Unescape
pub mod EscapeTurn
pub mod Escape
pub mod Recv
mod Cuts
pub mod Returns
pub mod Stream
pub mod Frames
pub mod Host
pub mod Loss
use farcri_rs.Prelude.{
  ℕ, zero, suc, ◌+◌, ◌-◌, ◌*◌, ◌%◌, ◌^◌, Bool, true, false, ◌&&◌, ◌||◌, not, Option, none, some,
  List, [], ◌∷◌, ◌++◌, length, get_or, set, take, drop, ltb, leb, ◌==◌, if◌then◌else◌, Bytes,
}
use farcri_rs.Buffer.{slice, overwrite}

abbrev pub slip_frame_end : ℕ
slip_frame_end = 0xc0

abbrev pub slip_frame_esc : ℕ
slip_frame_esc = 0xdb

abbrev pub slip_frame_esc_end : ℕ
slip_frame_esc_end = 0xdc

abbrev pub slip_frame_esc_esc : ℕ
slip_frame_esc_esc = 0xdd

-- `usize` of the 32-bit targets that the library is for.
abbrev pub usize_mod : ℕ
usize_mod = 2 ^ 32

-- What the target reads: for each poll of the down channel the bytes that it finds there, none if
-- the host has sent nothing. What it writes is appended to `output`.
pub record BencherIo : Type 0 where
  pub input : List Bytes
  pub output : Bytes

-- `ProxyLink`
pub record ProxyLink : Type 0 where
  pub io : BencherIo
  pub buf : Bytes
  pub buf_pos : ℕ
  pub buf_len : ℕ
  pub buf_scan : ℕ

-- `BencherIo::read` into a slice of `room` bytes: it blocks, by polling again, until a byte is
-- there. `none`: it blocks for ever.
unfoldable pub io_read : ℕ → List Bytes → Option (Bytes × List Bytes)
io_read zero input = none
io_read (suc m) [] = none
io_read (suc m) ([] ∷ r) = io_read (suc m) r
io_read (suc m) ((b ∷ bs) ∷ r) = some (b ∷ take m bs, drop m bs ∷ r)

-- `BencherIo::write`
abbrev pub io_write : Bytes → BencherIo → BencherIo
io_write b io = record io { output = io.output ++ b }

-- `iter().position(|&b| b == x)`
unfoldable pub position : ℕ → Bytes → Option ℕ
position x [] = none
position x (b ∷ bs) = elim (b == x) [
  | true ↦ some 0
  | false ↦ elim (position x bs) [ none ↦ none | some i ↦ some (suc i) ]
]

-- The byte that an escape stands for; `none` is the panic "invalid SLIP escape".
unfoldable pub unescape_code : ℕ → Option ℕ
unescape_code b =
    if b == slip_frame_esc_end
    then some slip_frame_end
    else if b == slip_frame_esc_esc
    then some slip_frame_esc
    else none

-- The body of the loop that expands escapes: what it writes to `window[0]`, and `read_ptr`.
unfoldable pub next_byte : Bytes → ℕ → Option (ℕ × ℕ)
unfolding unescape_code
next_byte window read_ptr =
    let b1 = get_or window read_ptr 0 in
    let b2 = get_or window (read_ptr + 1) 0 in
    if (b1 == slip_frame_esc) && ltb (read_ptr + 1) (length window)
    then (elim (unescape_code b2) [ none ↦ none | some b ↦ some (b, read_ptr + 1) ])
    else some (b1, read_ptr)

abbrev pub then? {ℓ} : {A : Type ℓ} → Option (ℕ × ℕ) → (ℕ → ℕ → Option A) → Option A
then? none go = none
then? (some (b, r)) go = go b r

-- The loop. The slice is `done ++ window`: `window[0]` is written and leaves the window at the
-- head. `none`: a panic, or the fuel ran out.
unfoldable pub unescape_loop : ℕ → Bytes → Bytes → ℕ → Option (Bytes × Bytes)
unfolding next_byte
unescape_loop zero done window read_ptr = none
unescape_loop (suc f) done window read_ptr =
    let rest =
      then? (next_byte window read_ptr)
        (λ b r. unescape_loop f (done ++ b ∷ []) (drop 1 window) r) in
    if ltb read_ptr (length window) then rest else some (done, window)

-- What one turn of the loop of `recv` does.
pub data RecvStep : Type 0 where
  again : ProxyLink → RecvStep
  packet : Bytes → ProxyLink → RecvStep
  invalid_escape : RecvStep  -- panic
  too_large : RecvStep  -- panic
  blocked : RecvStep

-- What the loop left of the slice `buf[start..stop]`, back in the buffer, and the packet there.
deliver : ℕ → ℕ → ProxyLink → Option (Bytes × Bytes) → RecvStep
deliver start stop l none = invalid_escape
deliver start stop l (some (done, rest)) =
    let buf' = overwrite start (done ++ rest) l.buf in
    packet (slice start (stop - length rest) buf') (record l { buf = buf' })

-- A non-empty packet `buf[start..stop]`, where `stop` is the place of its terminator.
unfoldable pub finish_packet : ℕ → ℕ → ProxyLink → RecvStep
unfolding unescape_loop deliver
finish_packet start stop l =
    let window = slice start stop l.buf in
    deliver start stop l (unescape_loop (suc (length window)) [] window 0)

unfoldable pub terminated : ℕ → ProxyLink → RecvStep
unfolding finish_packet
terminated end l =
    let next = l.buf_scan + (end + 1) in
    let l' = record l { buf_scan = next; buf_pos = next } in
    if ltb 0 end then finish_packet l.buf_pos (next - 1) l' else again l'

-- Discards the portion of the buffer that was read.
abbrev pub compact : ProxyLink → ProxyLink
compact l = record l {
  buf = overwrite 0 (slice l.buf_pos l.buf_len l.buf) l.buf;
  buf_len = l.buf_len - l.buf_pos;
  buf_pos = 0;
  buf_scan = l.buf_len - l.buf_pos;
}

abbrev pub received : ProxyLink → Bytes → List Bytes → ProxyLink
received l bs input = record l {
  io = record (l.io) { input = input };
  buf = overwrite l.buf_len bs l.buf;
  buf_scan = l.buf_len;
  buf_len = l.buf_len + length bs;
}

read_into : ProxyLink → Option (Bytes × List Bytes) → RecvStep
read_into l none = blocked
read_into l (some (bs, input)) = again (received l bs input)

-- No terminator: discards what was read, or reads more.
unfoldable pub read_more : ProxyLink → RecvStep
unfolding io_read read_into
read_more l =
    if leb (length l.buf - l.buf_len) 1
    then (if l.buf_pos == 0 then too_large else again (compact l))
    else read_into l (io_read (length l.buf - l.buf_len) l.io.input)

scanned_step : ProxyLink → Option ℕ → RecvStep
scanned_step l none = read_more l
scanned_step l (some end) = terminated end l

unfoldable pub recv_step : ProxyLink → RecvStep
unfolding position terminated read_more scanned_step
recv_step l = scanned_step l (position slip_frame_end (slice l.buf_scan l.buf_len l.buf))

abbrev pub carry_on : RecvStep → (ProxyLink → Option RecvStep) → Option RecvStep
carry_on (again l) go = go l
carry_on (packet bs l) go = some (packet bs l)
carry_on invalid_escape go = some invalid_escape
carry_on too_large go = some too_large
carry_on blocked go = some blocked

-- `recv` up to the decoder. `none`: the fuel ran out.
unfoldable pub recv : ℕ → ProxyLink → Option RecvStep
unfolding recv_step
recv zero l = none
recv (suc f) l = carry_on (recv_step l) (λ l'. recv f l')

-- `escape_code` in `send`
unfoldable pub escape_code : ℕ → ℕ
escape_code b =
    if b == slip_frame_end
    then slip_frame_esc_end
    else if b == slip_frame_esc
    then slip_frame_esc_esc
    else b

-- How many bytes `filter` keeps: those that need an escape.
unfoldable pub num_extra_bytes : Bytes → ℕ
num_extra_bytes [] = 0
num_extra_bytes (b ∷ bs) =
    (if b == slip_frame_end || b == slip_frame_esc then 1 else 0) + num_extra_bytes bs

-- The body of the loop that escapes in place: the buffer, and how many of its bytes are in the
-- window behind it.
unfoldable pub escape_turn : Bytes → ℕ → ℕ → Bytes × ℕ
unfolding escape_code
escape_turn buf w b =
    if (escape_code b == b) || ltb w 2
    then (set buf (w - 1) b, w - 1)
    else (set (set buf (w - 2) slip_frame_esc) (w - 1) (escape_code b), w - 2)

-- `wrapping_sub(1)`
abbrev pub wrapping_pred : ℕ → ℕ
wrapping_pred n = (n + usize_mod - 1) % usize_mod

-- The loop. The window is the first `w` bytes of the buffer. `none`: the fuel ran out.
unfoldable pub escape_loop : ℕ → Bytes → ℕ → ℕ → Option Bytes
unfolding escape_turn
escape_loop zero buf w read_ptr = none
escape_loop (suc f) buf w read_ptr =
    let (buf', w') = escape_turn buf w (get_or buf read_ptr 0) in
    let rest = escape_loop f buf' w' (wrapping_pred read_ptr) in
    if ltb read_ptr w then rest else some buf

-- The end of `send`, behind the loop.
frame_sent : ℕ → ProxyLink → Option Bytes → Option ProxyLink
frame_sent n l none = none
frame_sent n l (some buf) =
    some (record {
      io = io_write (take n buf) l.io;
      buf = buf;
      buf_pos = 0;
      buf_len = 0;
      buf_scan = 0;
    })

-- `send`, from the `num_bytes` that the encoder left in the buffer. `none` is a panic: the frame
-- has no room in the buffer, or its length overflows.
unfoldable pub send : Bytes → ProxyLink → Option ProxyLink
unfolding escape_loop num_extra_bytes frame_sent
send encoded l =
    let num_bytes = length encoded in
    let n = num_bytes + num_extra_bytes encoded + 1 in
    let buf = set (overwrite 0 encoded l.buf) (n - 1) slip_frame_end in
    let escaped = escape_loop (suc num_bytes) buf (n - 1) (wrapping_pred num_bytes) in
    if ltb n usize_mod && leb n (length l.buf) then frame_sent n l escaped else none
