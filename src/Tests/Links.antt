-- ===== src/Tests/Links.antt =====
-- The theorems on src/bencher/proxylink.rs and src/proxy/targetlink/slip.rs at concrete inputs.
use farcri_rs.Prelude.{
  zero, Option, none, some, List, [], ◌∷◌, ◌++◌, map, Bytes, ◌≡◌, refl, arith, ℕ, suc, ◌<◌, ◌≢◌,
  length, get_or,
}
use farcri_rs.Buffer.{slice}
use farcri_rs.Slip.{read_frame, ok, ready, poll, buffer, escape_byte}
use farcri_rs.TargetLink as TargetLink
use farcri_rs.TargetLink.{Codec, message as received_message, recv-send}
use farcri_rs.Slip.Chunks.{flatten}
use farcri_rs.Slip.RoundTrip.{poll-escape}
use farcri_rs.ProxyLink.{ProxyLink, again, recv_step, recv, send}
use farcri_rs.ProxyLink.Escape.{Sent, send-Sent}
use farcri_rs.ProxyLink.Recv.{IsValid, Ensures, measure, recv_step-Ensures}
use farcri_rs.ProxyLink.Returns.{Returns, recv-Returns}
use farcri_rs.ProxyLink.Stream.{unread, Follows, recv_step-Follows}
use farcri_rs.ProxyLink.Loss.{recv_step_discards}
use farcri_rs.ProxyLink.Host.{send-poll}

-- A message with a byte to escape.
abbrev message : Bytes
message = 1 ∷ 0xc0 ∷ []

abbrev room : Bytes
room = 0 ∷ 0 ∷ 0 ∷ 0 ∷ 0 ∷ 0 ∷ []

abbrev link : ProxyLink
link = record {
  io = record { input = (1 ∷ 0xc0 ∷ []) ∷ []; output = 7 ∷ [] };
  buf = room;
  buf_pos = 0;
  buf_len = 0;
  buf_scan = 0;
}

abbrev tiny_link : ProxyLink
tiny_link = record link { buf = 0 ∷ 0 ∷ [] }

-- A frame, and the start of another, in the buffer.
abbrev full_link : ProxyLink
full_link = record {
  io = record { input = []; output = [] };
  buf = 1 ∷ 0xdb ∷ 0xdc ∷ 0xc0 ∷ 2 ∷ 0 ∷ [];
  buf_pos = 0;
  buf_len = 5;
  buf_scan = 0;
}

-- A packet that is scanned up to its terminator, which has just been read.
abbrev cut_link : ProxyLink
cut_link = record full_link { buf = 1 ∷ 2 ∷ 0xc0 ∷ 0 ∷ []; buf_len = 3; buf_scan = 2 }

link-IsValid : IsValid link
link-IsValid = record {
  pos_le_scan = omega arith;
  scan_le_len = omega arith;
  len_le_cap = omega arith;
  scanned = λ i low high. absurd (omega arith);
}

full_link-IsValid : IsValid full_link
full_link-IsValid = record {
  pos_le_scan = omega arith;
  scan_le_len = omega arith;
  len_le_cap = omega arith;
  scanned = λ i low high. absurd (omega arith);
}

abbrev chunks : List Bytes
chunks = (1 ∷ 0xdb ∷ []) ∷ (0xdc ∷ 0xc0 ∷ 9 ∷ []) ∷ []

send-poll_example :
    (l' : ProxyLink) × (left : List Bytes) × (send message link ≡ some l')
    × (l'.io.output ++ 9 ∷ [] ≡ (7 ∷ []) ++ flatten chunks)
    × (poll read_frame (map buffer chunks) ≡ (ready (ok message), read_frame, map buffer left))
    × (flatten left ≡ 9 ∷ [])
unfolding escape_byte
send-poll_example = send-poll message (9 ∷ []) link chunks (omega arith) (omega arith) refl

send-Sent_example : (l' : ProxyLink) × (send message link ≡ some l') × Sent message link l'
unfolding escape_byte
send-Sent_example = send-Sent message link (omega arith) (omega arith)

recv_step-Follows_example : Follows full_link (recv_step full_link)
recv_step-Follows_example = recv_step-Follows full_link full_link-IsValid

recv_step-Ensures_example : Ensures link (recv_step link)
recv_step-Ensures_example = recv_step-Ensures link link-IsValid

recv-Returns_example : Returns link (recv 7 link)
unfolding measure
recv-Returns_example = recv-Returns 7 link link-IsValid (omega arith)

cut_link_scanned : (i : ℕ) → i < 2 → get_or cut_link.buf i 0 ≢ 0xc0
cut_link_scanned zero h e = omega (arith, e)
cut_link_scanned (suc zero) h e = omega (arith, e)
cut_link_scanned (suc (suc i)) h e = omega (arith, h)

cut_link-IsValid : IsValid cut_link
cut_link-IsValid = record {
  pos_le_scan = omega arith;
  scan_le_len = omega arith;
  len_le_cap = omega arith;
  scanned = λ i low high. cut_link_scanned i high;
}

recv_step_discards_example :
    (l' : ProxyLink) × (recv_step cut_link ≡ again l')
    × (unread cut_link ≡ slice 0 2 cut_link.buf ++ 0xc0 ∷ unread l')
    × (0 < length (slice 0 2 cut_link.buf))
recv_step_discards_example = recv_step_discards cut_link [] cut_link-IsValid (omega arith) refl

poll-escape_example :
    (left : List Bytes) × (poll read_frame (map buffer chunks)
      ≡ (ready (ok message), read_frame, map buffer left))
    × (flatten left ≡ 9 ∷ [])
unfolding escape_byte
poll-escape_example = poll-escape message (9 ∷ []) chunks refl

pair_of : Bytes → Option (ℕ × ℕ)
pair_of (x ∷ y ∷ []) = some (x, y)
pair_of _ = none

-- A message of two bytes.
abbrev codec : Codec (ℕ × ℕ)
codec = record { to_vec = λ m. m.0 ∷ m.1 ∷ []; from_slice = pair_of }

recv-send_example :
    (l' : ProxyLink) × (left : List Bytes) × (send (1 ∷ 0xc0 ∷ []) link ≡ some l')
    × (l'.io.output ++ 9 ∷ [] ≡ link.io.output ++ flatten chunks)
    × (TargetLink.recv codec (map buffer chunks) ≡ (received_message (1, 0xc0), map buffer left))
    × (flatten left ≡ 9 ∷ [])
unfolding escape_byte pair_of
recv-send_example =
    recv-send codec (λ m. refl) (1, 0xc0) (9 ∷ []) link chunks (omega arith) (omega arith) refl
