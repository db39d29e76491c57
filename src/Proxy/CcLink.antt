-- ===== src/Proxy/CcLink.antt =====
-- The connection to cargo-criterion, `CcLink` of src/proxy/ccfront.rs, less its two scratch buffers. The
-- encoding of the messages, by the third-party crate serde_cbor, is no part of this file.
pub mod Stream
pub mod Hello
use farcri_rs.Prelude.{
  ℕ, ◌+◌, ◌*◌, ◌/◌, ◌%◌, ◌^◌, Bool, Option, none, some, List, [], ◌∷◌, ◌++◌, length, get_or, take,
  drop, ltb, ◌==◌, ◌&&◌, if◌then◌else◌, Bytes,
}
use farcri_rs.Slip.{Fill}
use farcri_rs.Futures.{window_eq, Exact, exact, unexpected_eof, exact_failed, exact_waits}
use farcri_rs.Proxy.CcProtocol.{
  runner_magic_number, runner_hello_size, benchmark_magic_number, protocol_version, protocol_format,
}

-- `u16::to_be_bytes`, `u32::to_be_bytes` and `u32::from_be_bytes`
abbrev pub be16 : ℕ → Bytes
be16 n = n / 2 ^ 8 % 2 ^ 8 ∷ n % 2 ^ 8 ∷ []

abbrev pub be32 : ℕ → Bytes
be32 n = n / 2 ^ 24 % 2 ^ 8 ∷ n / 2 ^ 16 % 2 ^ 8 ∷ n / 2 ^ 8 % 2 ^ 8 ∷ n % 2 ^ 8 ∷ []

abbrev pub from_be32 : Bytes → ℕ
from_be32 b = get_or b 0 0 * 2 ^ 24 + get_or b 1 0 * 2 ^ 16 + get_or b 2 0 * 2 ^ 8 + get_or b 3 0

-- What is to be read, and what has been written.
pub record CcLink : Type 0 where
  pub cc_stream : List Fill
  pub written : Bytes

-- An operation that reads: its value with the link, or why there is none; the link is told where the peer
-- is refused.
pub data Result (A : Type 0) : Type 0 where
  ok : A → CcLink → Result A
  not_cargo_criterion : CcLink → Result A
  eof_reached : Result A
  read_failed : ℕ → Result A
  blocked : Result A

-- `read_exact(..).await?`
unfoldable pub reading : {A : Type 0} → Exact → (Bytes → List Fill → Result A) → Result A
reading (exact bs r) go = go bs r
reading unexpected_eof go = eof_reached
reading (exact_failed e) go = read_failed e
reading exact_waits go = blocked

-- The benchmark-hello, with the crate's version.
abbrev pub benchmark_hello : (major minor patch : ℕ) → Bytes
benchmark_hello major minor patch =
    benchmark_magic_number
    ++ (major ∷ minor ∷ patch ∷ [])
    ++ be16 protocol_version
    ++ be16 protocol_format

-- `CcLink::new`; its value is the runner's version, which is logged.
unfoldable pub new : (ℕ → List Fill → Exact) → (major minor patch : ℕ) → List Fill → Result Bytes
unfolding reading
new read_exact major minor patch r = reading (read_exact runner_hello_size r) λ hello_buf r'.
    let i = length runner_magic_number in
    if window_eq hello_buf runner_magic_number
    then ok (get_or hello_buf i 0 ∷ get_or hello_buf (i + 1) 0 ∷ get_or hello_buf (i + 2) 0 ∷ [])
        (record { cc_stream = r'; written = benchmark_hello major minor patch })
    else not_cargo_criterion (record { cc_stream = r'; written = [] })

-- `CcLink::recv`, up to the decoder.
unfoldable pub recv : (ℕ → List Fill → Exact) → CcLink → Result Bytes
unfolding reading
recv read_exact l = reading (read_exact 4 l.cc_stream) λ length_buf r.
    reading (read_exact (from_be32 length_buf) r)
      λ receive_buffer r'. ok receive_buffer (record l { cc_stream = r' })

-- `CcLink::send`, behind the encoder. `none` is the panic if the length has no 32 bits.
unfoldable pub send : Bytes → CcLink → Option CcLink
send send_buffer l =
    if ltb (length send_buffer) (2 ^ 32)
    then some (record l { written = l.written ++ (be32 (length send_buffer) ++ send_buffer) })
    else none
