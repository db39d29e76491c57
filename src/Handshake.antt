-- ===== src/Handshake.antt =====
-- How the two ends of the link meet: `ProxyLink::new` of src/bencher/proxylink.rs on the target and
-- `TargetLink::new` of src/proxy/targetlink.rs on the host.
pub mod Feeds
pub mod Replies
pub mod Requests
pub mod Agreement
use farcri_rs.Prelude.{
  ℕ, zero, suc, ◌+◌, ◌-◌, Bool, true, false, ◌||◌, Option, none, some, List, [], ◌∷◌, ◌++◌, map,
  length, get_or, drop, ◌==◌, if◌then◌else◌, Bytes,
}
use farcri_rs.Buffer.{overwrite}
use farcri_rs.Protocol.{handshake_magic, handshake_nonce_len, handshake_end_magic}
use farcri_rs.ProxyLink.{BencherIo, ProxyLink, io_read, io_write}
use farcri_rs.Slip.{Fill, buffer}
use farcri_rs.Slip.Chunks.{flatten}
use farcri_rs.Futures.{
  Exact, exact, unexpected_eof, exact_failed, exact_waits, Skipped, found, not_found, failed, waits,
  skip_until_pattern,
}

-- The first bytes of the two magics, and those behind them.
abbrev pub magic0 : ℕ
magic0 = get_or handshake_magic 0 0

abbrev pub end_magic0 : ℕ
end_magic0 = get_or handshake_end_magic 0 0

abbrev pub magic_tail : Bytes
magic_tail = drop 1 handshake_magic

abbrev pub end_magic_tail : Bytes
end_magic_tail = drop 1 handshake_end_magic

abbrev pub handshake_packet : Bytes → Bytes
handshake_packet nonce = handshake_magic ++ nonce

-- What the closure `next` of `ProxyLink::new` works on.
pub record Feed : Type 0 where
  pub io : BencherIo
  pub buf : Bytes
  pub pos : ℕ
  pub len : ℕ

-- Behind a read of `bs` into the buffer, of which the first byte is taken.
abbrev pub refill : Feed → Bytes → List Bytes → Feed
refill fd bs input = record {
  io = record (fd.io) { input = input };
  buf = overwrite 0 bs fd.buf;
  pos = 1;
  len = length bs;
}

refilled : Feed → Option (Bytes × List Bytes) → Option (ℕ × Feed)
refilled fd none = none
refilled fd (some (bs, input)) = let fd' = refill fd bs input in some (get_or fd'.buf 0 0, fd')

-- `next`; `none` if it blocks for ever.
unfoldable pub next : Feed → Option (ℕ × Feed)
unfolding refilled io_read
next fd =
    if fd.pos == fd.len
    then refilled fd (io_read (length fd.buf) fd.io.input)
    else some (get_or fd.buf fd.pos 0, record fd { pos = fd.pos + 1 })

pub data Matched : Type 0 where
  matched : Feed → Matched
  mismatched : Feed → Matched
  starved : Matched

matched_byte : ℕ → Option (ℕ × Feed) → (Feed → Matched) → Matched
matched_byte b none go = starved
matched_byte b (some (b', fd)) go = if b' == b then go fd else mismatched fd

-- The loops over the bytes behind the first one of a magic.
unfoldable pub read_matching : Bytes → Feed → Matched
unfolding next matched_byte
read_matching [] fd = matched fd
read_matching (b ∷ bs) fd = matched_byte b (next fd) (λ fd'. read_matching bs fd')

read_byte : Option (ℕ × Feed) → (Feed → Option (Bytes × Feed)) → Option (Bytes × Feed)
read_byte none go = none
read_byte (some (b, fd)) go = elim (go fd) [ none ↦ none | some (bs, fd') ↦ some (b ∷ bs, fd') ]

-- The loop over the bytes of the nonce.
unfoldable pub read_nonce : ℕ → Feed → Option (Bytes × Feed)
unfolding next read_byte
read_nonce zero fd = some ([], fd)
read_nonce (suc n) fd = read_byte (next fd) (λ fd'. read_nonce n fd')

pub data Handshaken : Type 0 where
  linked : ProxyLink → Handshaken
  bad_end : Handshaken  -- panic
  blocked : Handshaken
  unfinished : Handshaken  -- the fuel ran out

-- "Reply"
replied : Option (Bytes × Feed) → (Bool → Feed → Handshaken) → Handshaken
replied none go = blocked
replied (some (nonce, fd)) go = go true (record fd { io = io_write (handshake_packet nonce) fd.io })

packet_read : Matched → Bool → (Bool → Feed → Handshaken) → Handshaken
unfolding replied read_nonce
packet_read (matched fd) got go = replied (read_nonce handshake_nonce_len fd) go
packet_read (mismatched fd) got go = go got fd
packet_read starved got go = blocked

end_read : Matched → Handshaken
end_read (matched fd) = linked (record {
  io = io_write handshake_end_magic fd.io;
  buf = fd.buf;
  buf_pos = 0;
  buf_len = 0;
  buf_scan = 0;
})
end_read (mismatched fd) = bad_end
end_read starved = blocked

-- What the next byte begins: `got` tells that a packet has been answered.
first_byte : Option (ℕ × Feed) → Bool → (Bool → Feed → Handshaken) → Handshaken
unfolding read_matching packet_read end_read
first_byte none got go = blocked
first_byte (some (b, fd)) got go =
    if b == magic0
    then packet_read (read_matching magic_tail fd) got go
    else if got
    then (if b == end_magic0 then end_read (read_matching end_magic_tail fd) else bad_end)
    else go got fd

-- The two loops, each turn of which begins with the next byte.
unfoldable pub handshake_loop : ℕ → Bool → Feed → Handshaken
unfolding first_byte
handshake_loop zero got fd = unfinished
handshake_loop (suc f) got fd = first_byte (next fd) got (λ got' fd'. handshake_loop f got' fd')

-- `ProxyLink::new`, with a turn for each byte of the input.
unfoldable pub new : BencherIo → Bytes → Handshaken
unfolding handshake_loop
new io buf =
    handshake_loop (suc (length (flatten io.input))) false
      (record { io = io; buf = buf; pos = 0; len = 0 })

-- The host's end: what `TargetLink::new` gives. `timed_out`: one of its limits of ten seconds has passed.
pub data Connected : Type 0 where
  connected : (reader : List Fill) (written : Bytes) → Connected
  eof_in_handshake : Connected
  read_failed : ℕ → Connected
  timed_out : Connected
  unexpected_byte : ℕ → Connected
  out_of_fuel : Connected

-- The nonce, without the bytes with which a magic begins.
abbrev pub sanitize : ℕ → ℕ
sanitize x = if x == magic0 || x == end_magic0 then 255 else x

-- Process 2 of stage 1: it is aborted when `k` of its waits have passed.
unfoldable pub requests : Bytes → ℕ → Bytes
requests packet zero = packet
requests packet (suc k) = packet ++ requests packet k

packet_skipped : Exact → (List Fill → Connected) → Connected
packet_skipped (exact bs r) go = go r
packet_skipped unexpected_eof go = eof_in_handshake
packet_skipped (exact_failed e) go = read_failed e
packet_skipped exact_waits go = timed_out

-- The first byte of a response, and the rest.
response :
    (ℕ → List Fill → Exact)
    → Bytes
    → Exact
    → (List Fill → Connected)
    → (List Fill → Connected)
    → Connected
unfolding packet_skipped
response read_exact packet (exact bs r) go done =
    let b = get_or bs 0 0 in
    if b == magic0
    then packet_skipped (read_exact (length packet - 1) r) go
    else if b == end_magic0
    then packet_skipped (read_exact (length handshake_end_magic - 1) r) done
    else unexpected_byte b
response read_exact packet unexpected_eof go done = eof_in_handshake
response read_exact packet (exact_failed e) go done = read_failed e
response read_exact packet exact_waits go done = timed_out

-- Process 1 of stage 2.
unfoldable pub drop_responses : (ℕ → List Fill → Exact) → ℕ → Bytes → Bytes → List Fill → Connected
unfolding response
drop_responses read_exact zero packet written r = out_of_fuel
drop_responses read_exact (suc f) packet written r =
    response read_exact packet (read_exact 1 r)
      (λ r'. drop_responses read_exact f packet written r') (λ r'. connected r' written)

abbrev pub available : List Fill → ℕ
available [] = 0
available (buffer bs ∷ r) = length bs + available r
available (_ ∷ r) = available r

-- Stage 2, behind process 1 of stage 1.
stage_2 : (ℕ → List Fill → Exact) → Bytes → Bytes → Skipped → Connected
unfolding drop_responses
stage_2 read_exact packet written (found r) =
    drop_responses read_exact (suc (available r)) packet (written ++ handshake_end_magic) r
stage_2 read_exact packet written not_found = eof_in_handshake
stage_2 read_exact packet written (failed e) = read_failed e
stage_2 read_exact packet written waits = timed_out

-- `TargetLink::new`, with the random bytes, the number of repeated requests, and a writer without errors.
unfoldable pub connect : (ℕ → List Fill → Exact) → Bytes → ℕ → List Fill → Connected
unfolding stage_2 requests
connect read_exact random k r =
    let packet = handshake_packet (map sanitize random) in
    stage_2 read_exact packet (requests packet k) (skip_until_pattern read_exact packet r)
