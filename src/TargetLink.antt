-- ===== src/TargetLink.antt =====
-- `TargetLink::recv` and `send` of src/proxy/targetlink.rs, over the frames of slip.rs. The codec is the
-- third-party crate serde_cbor.
use farcri_rs.Prelude.{
  ℕ, zero, suc, ◌≤◌, ◌<◌, Option, none, some, List, [], ◌∷◌, ◌++◌, map, length, Bytes, ◌≡◌, ap, ◌∙◌,
}
use farcri_rs.Slip.{
  Fill, buffer, FrameExtractorError, Frame, ok, err, Poll, ready, pending, ReadFrame, read_frame,
  poll, escape_frame,
}
use farcri_rs.Slip.Chunks.{flatten}
use farcri_rs.ProxyLink.{ProxyLink, usize_mod}
use farcri_rs.ProxyLink as Target
use farcri_rs.ProxyLink.Escape.{frame_of}
use farcri_rs.ProxyLink.Host.{send-poll}

pub record Codec (M : Type 0) : Type 0 where
  pub to_vec : M → Bytes
  pub from_slice : Bytes → Option M

-- What `recv` gives: a message, an error of the frame, or a packet that is no message.
pub data Received (M : Type 0) : Type 0 where
  message : M → Received M
  bad_frame : FrameExtractorError → Received M
  bad_message : Received M
  waits : Received M

-- `write_frame`: the bytes that are written.
unfoldable pub write_frame : Bytes → Bytes
write_frame bytes = escape_frame bytes []

-- `.await` of the future: it is polled again behind each poll that is pending.
awaited :
    Poll × ReadFrame × List Fill
    → (ReadFrame → List Fill → Option Frame × List Fill)
    → Option Frame × List Fill
awaited (ready f, rf, r) next = (some f, r)
awaited (pending, rf, []) next = (none, [])
awaited (pending, rf, x ∷ r) next = next rf (x ∷ r)

unfoldable pub await_frame : ℕ → ReadFrame → List Fill → Option Frame × List Fill
unfolding awaited
await_frame zero rf r = (none, r)
await_frame (suc n) rf r = awaited (poll rf r) (await_frame n)

module _ {M : Type 0} (codec : Codec M) where
  abbrev parsed : Option M → Received M
  parsed none = bad_message
  parsed (some m) = message m

  decoded : Option Frame × List Fill → Received M × List Fill
  decoded (none, r) = (waits, r)
  decoded (some (err e), r) = (bad_frame e, r)
  decoded (some (ok frame), r) = (parsed (codec.from_slice frame), r)

  -- `TargetLink::recv`
  unfoldable pub recv : List Fill → Received M × List Fill
  unfolding await_frame decoded
  recv r = decoded (await_frame (suc (length r)) read_frame r)

  -- `TargetLink::send`: the bytes that are written.
  unfoldable pub send : M → Bytes
  unfolding write_frame
  send msg = write_frame (codec.to_vec msg)

-- A message that the target's link sends, encoded, is the one that the host's link receives, however its
-- frame is cut into buffers, if the frame fits into the packet buffer; what follows is left.
pub recv-send :
    {M : Type 0} (codec : Codec M) (law : (m : M) → codec.from_slice (codec.to_vec m) ≡ some m)
    (m : M) (rest : Bytes) (l : ProxyLink) (cs : List Bytes)
    → length (frame_of (codec.to_vec m)) ≤ length l.buf
    → length l.buf < usize_mod
    → flatten cs ≡ frame_of (codec.to_vec m) ++ rest
    → (l' : ProxyLink) × (left : List Bytes) × (Target.send (codec.to_vec m) l ≡ some l')
      × (l'.io.output ++ rest ≡ l.io.output ++ flatten cs)
      × (recv codec (map buffer cs) ≡ (message m, map buffer left))
      × (flatten left ≡ rest)
unfolding recv decoded await_frame
recv-send codec law m rest l cs fits small e =
    let (l', left, run, out, polled, behind) = send-poll (codec.to_vec m) rest l cs fits small e in
    (
      l',
      left,
      run,
      out,
      ap (λ p. decoded codec (awaited p (await_frame (length (map buffer cs))))) polled
          ∙ ap (λ o. (parsed codec o, map buffer left)) (law m),
      behind,
    )
