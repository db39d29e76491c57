-- ===== src/Slip.antt =====
-- The host's SLIP codec, src/proxy/targetlink/slip.rs: the frame extractor, the future that
-- `read_frame` returns, and `escape_frame`.
pub mod Chunks
pub mod RoundTrip
use farcri_rs.Prelude.{ℕ, List, [], ◌∷◌, ◌++◌, ◌==◌, if◌then◌else◌, Bytes}

-- `FrameExtractorStateInner`
pub data Inner : Type 0 where
  frame frame_escape : Inner

pub data FrameExtractorAction : Type 0 where
  append_frame : ℕ → FrameExtractorAction
  end_frame : FrameExtractorAction

-- `FrameExtractorError`; `invalid_escape` is the one `FrameExtractorProtocolError`, and an I/O
-- error is named by a number.
pub data FrameExtractorError : Type 0 where
  invalid_escape : ℕ → FrameExtractorError
  io : ℕ → FrameExtractorError

-- The result of `process`: `Ok(None)`, `Ok(Some(_))`, `Err(_)`.
pub data Processed : Type 0 where
  nothing : Processed
  action : FrameExtractorAction → Processed
  fail : FrameExtractorError → Processed

-- `FrameExtractorState::process`: the next state and the result.
unfoldable pub process : Inner → ℕ → Inner × Processed
process frame b =
    if b == 0xdb
    then (frame_escape, nothing)
    else if b == 0xc0
    then (frame, action end_frame)
    else (frame, action (append_frame b))
process frame_escape b =
    if b == 0xdc
    then (frame, action (append_frame 0xc0))
    else if b == 0xdd
    then (frame, action (append_frame 0xdb))
    else (frame, fail (invalid_escape b))

-- `ReadFrame`, less the reader, which is passed along.
pub record ReadFrame : Type 0 where
  pub partial_packet : Bytes
  pub state : Inner

abbrev pub read_frame : ReadFrame
read_frame = record { partial_packet = []; state = frame }

-- What one `poll_fill_buf` of the reader gives. A reader is the list of what its polls will give;
-- an empty buffer is the end of the file.
pub data Fill : Type 0 where
  buffer : Bytes → Fill
  fill_error : ℕ → Fill
  fill_pending : Fill

pub data Frame : Type 0 where
  ok : Bytes → Frame
  err : FrameExtractorError → Frame

pub data Poll : Type 0 where
  ready : Frame → Poll
  pending : Poll

-- The `for` loop over one buffer: the result if it breaks, the future, and the bytes not consumed.
pub record Scanned : Type 0 where
  pub broke : Poll
  pub future : ReadFrame
  pub unread : Bytes

scan_step : Inner × Processed → ReadFrame → Bytes → (ReadFrame → Scanned) → Scanned
scan_step (s, nothing) rf bs go = go (record rf { state = s })
scan_step (s, action (append_frame b)) rf bs go =
    go (record { partial_packet = rf.partial_packet ++ b ∷ []; state = s })
scan_step (s, action end_frame) rf bs go = record {
  broke = ready (ok rf.partial_packet);
  future = record { partial_packet = []; state = s };
  unread = bs;
}
scan_step (s, fail e) rf bs go = record {
  broke = ready (err e);
  future = record rf { state = s };
  unread = bs;
}

unfoldable pub scan : ReadFrame → Bytes → Scanned
unfolding scan_step process
scan rf [] = record { broke = pending; future = rf; unread = [] }
scan rf (b ∷ bs) = scan_step (process rf.state b) rf bs (λ rf'. scan rf' bs)

-- The rest of a buffer stays in the reader.
abbrev pub put_back : Bytes → List Fill → List Fill
put_back [] r = r
put_back (b ∷ bs) r = buffer (b ∷ bs) ∷ r

finish_poll :
    Poll → Scanned → List Fill → Poll × ReadFrame × List Fill → Poll × ReadFrame × List Fill
finish_poll (ready x) s r next = (ready x, s.future, put_back s.unread r)
finish_poll pending s r next = next

-- `ReadFrame::poll`. With no event left the reader is pending.
unfoldable pub poll : ReadFrame → List Fill → Poll × ReadFrame × List Fill
unfolding scan finish_poll
poll rf [] = (pending, rf, [])
poll rf (fill_pending ∷ r) = (pending, rf, r)
poll rf (fill_error e ∷ r) = (ready (err (io e)), rf, r)
poll rf (buffer bs ∷ r) =
    let rest = poll (scan rf bs).future r in finish_poll (scan rf bs).broke (scan rf bs) r rest

-- The body of the loop of `escape_frame`.
unfoldable pub escape_byte : ℕ → Bytes
escape_byte b =
    if b == 0xdb then 0xdb ∷ 0xdd ∷ [] else if b == 0xc0 then 0xdb ∷ 0xdc ∷ [] else b ∷ []

unfoldable pub escape_onto : Bytes → Bytes → Bytes
unfolding escape_byte
escape_onto out [] = out
escape_onto out (b ∷ bs) = escape_onto (out ++ escape_byte b) bs

-- `escape_frame`: appends the frame to `out`.
unfoldable pub escape_frame : Bytes → Bytes → Bytes
unfolding escape_onto
escape_frame bs out = escape_onto (out ++ 0xc0 ∷ []) bs ++ 0xc0 ∷ []
