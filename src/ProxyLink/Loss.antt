-- ===== src/ProxyLink/Loss.antt =====
-- The packet that `recv` of src/bencher/proxylink.rs loses, seen on the stream of unread bytes.
use farcri_rs.Prelude.{
  ◌+◌, ◌<◌, inl, inr, ◌∷◌, ◌++◌, length, Bytes, ◌≡◌, ap, subst, arith, length-append,
}
use farcri_rs.Buffer.{slice, length-slice}
use farcri_rs.ProxyLink.{slip_frame_end, ProxyLink, again, recv_step}
use farcri_rs.ProxyLink.Recv.{IsValid}
use farcri_rs.ProxyLink.Stream.{unread, Follows, recv_step-Follows}
use farcri_rs.ProxyLink.Frames.{recv_step_loses}
use farcri_rs.Slip.Chunks.{flatten}

-- On a valid link with at least one byte of a packet scanned, and the packet's terminator the next
-- byte to be scanned, a turn of `recv` discards the packet: the stream goes on behind its frame, and
-- nothing is delivered.
pub recv_step_discards :
    (l : ProxyLink) (rest : Bytes)
    → IsValid l
    → l.buf_pos < l.buf_scan
    → slice l.buf_scan l.buf_len l.buf ≡ slip_frame_end ∷ rest
    → (l' : ProxyLink) × (recv_step l ≡ again l')
      × (unread l ≡ slice l.buf_pos l.buf_scan l.buf ++ slip_frame_end ∷ unread l')
      × (0 < length (slice l.buf_pos l.buf_scan l.buf))
recv_step_discards l rest v begun e =
    let l' = record l { buf_scan = l.buf_scan + 1; buf_pos = l.buf_scan + 1 } in
    let step = recv_step_loses l rest e in
    let n = length-slice l.buf_scan l.buf_len l.buf v.len_le_cap in
    let inside : l.buf_scan < l.buf_len = omega (arith, n, ap length e) in
    let before = length-append (slice l.buf_pos l.buf_len l.buf) (flatten l.io.input) in
    let behind = length-append (slice (l.buf_scan + 1) l.buf_len l.buf) (flatten l.io.input) in
    let a = length-slice l.buf_pos l.buf_len l.buf v.len_le_cap in
    let b = length-slice (l.buf_scan + 1) l.buf_len l.buf v.len_le_cap in
    let c = length-slice l.buf_pos l.buf_scan l.buf (omega (arith, v.scan_le_len, v.len_le_cap)) in
    (
      l',
      step,
      elim (subst (Follows l) step (recv_step-Follows l v)) [
        | inl same ↦ absurd (omega (arith, ap length same, before, behind, a, b))
        | inr frame ↦ frame
      ],
      omega (arith, c),
    )
