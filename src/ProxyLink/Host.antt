-- ===== src/ProxyLink/Host.antt =====
-- From `send` of src/bencher/proxylink.rs to `read_frame` of src/proxy/targetlink/slip.rs.
use farcri_rs.Prelude.{
  ◌<◌, ◌≤◌, some, List, [], ◌∷◌, ◌++◌, length, map, Bytes, ◌≡◌, ap, sym, ◌∙◌, append_assoc,
}
use farcri_rs.ProxyLink.{ProxyLink, slip_frame_end, usize_mod, send}
use farcri_rs.ProxyLink.Escape.{frame_of, send-Sent}
use farcri_rs.Slip.{read_frame, ok, ready, poll, buffer}
use farcri_rs.Slip.Chunks.{flatten}
use farcri_rs.Slip.RoundTrip.{escape, poll-escape}

-- If the frame of a message fits into the packet buffer, `send` returns, and from buffers that hold
-- its frame and any further bytes `read_frame` reads the message back and leaves the further bytes.
-- These buffers, in whatever way cut, hold what `send` has written, up to the further bytes.
pub send-poll :
    (bs rest : Bytes) (l : ProxyLink) (cs : List Bytes)
    → length (frame_of bs) ≤ length l.buf
    → length l.buf < usize_mod
    → flatten cs ≡ frame_of bs ++ rest
    → (l' : ProxyLink) × (left : List Bytes) × (send bs l ≡ some l')
      × (l'.io.output ++ rest ≡ l.io.output ++ flatten cs)
      × (poll read_frame (map buffer cs) ≡ (ready (ok bs), read_frame, map buffer left))
      × (flatten left ≡ rest)
send-poll bs rest l cs fits small e =
    let (l', run, s) = send-Sent bs l fits small in
    let (left, polled, behind) =
      poll-escape bs rest cs (e ∙ append_assoc (escape bs) (slip_frame_end ∷ []) rest) in
    (
      l',
      left,
      run,
      ap (λ io. io.output ++ rest) s.written
          ∙ append_assoc l.io.output (frame_of bs) rest
          ∙ ap (λ xs. l.io.output ++ xs) (sym e),
      polled,
      behind,
    )
