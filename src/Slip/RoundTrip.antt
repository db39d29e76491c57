-- ===== src/Slip/RoundTrip.antt =====
-- `read_frame` reads back what `escape_frame` writes.
use farcri_rs.Prelude.{
  ℕ, List, [], ◌∷◌, ◌++◌, ◌≡◌, sym, ap, map, ◌∙◌, arith, Bytes, append-nil, append_assoc,
}
use farcri_rs.Slip.{
  frame, buffer, ready, ok, poll, scan, read_frame, escape_byte, escape_onto, escape_frame,
}
use farcri_rs.Slip.Chunks.{flatten, poll-chunks}

-- The frame's body: each byte escaped.
abbrev pub escape : Bytes → Bytes
escape [] = []
escape (b ∷ bs) = escape_byte b ++ escape bs

escape_onto-escape : (bs out : Bytes) → escape_onto out bs ≡ out ++ escape bs
unfolding escape_onto
escape_onto-escape [] out = sym (append-nil out)
escape_onto-escape (b ∷ bs) out =
    escape_onto-escape bs (out ++ escape_byte b) ∙ append_assoc out (escape_byte b) (escape bs)

pub escape_frame-escape :
    (bs out : Bytes) → escape_frame bs out ≡ out ++ 0xc0 ∷ (escape bs ++ 0xc0 ∷ [])
unfolding escape_frame
escape_frame-escape bs out = simp (escape_onto-escape, append_assoc)

scan-escape_byte :
    (p : Bytes) (b : ℕ) (rest : Bytes)
    → scan (record { partial_packet = p; state = frame }) (escape_byte b ++ rest)
      ≡ scan (record { partial_packet = p ++ b ∷ []; state = frame }) rest
unfolding scan escape_byte
scan-escape_byte p b rest = ground arith

pub scan-escape :
    (p bs rest : Bytes)
    → scan (record { partial_packet = p; state = frame }) (escape bs ++ 0xc0 ∷ rest)
      ≡ record { broke = ready (ok (p ++ bs)); future = read_frame; unread = rest }
scan-escape p [] rest = unfold scan in rw append-nil
scan-escape p (b ∷ bs) rest = rw append_assoc (
    scan-escape_byte p b (escape bs ++ 0xc0 ∷ rest)
    ∙ scan-escape (p ++ b ∷ []) bs rest
    ∙ rw append_assoc)

-- Whatever bytes a packet holds and however its frame is cut into buffers, `read_frame` returns
-- the packet and leaves in the reader the bytes behind the frame.
pub poll-escape :
    (bs rest : Bytes) (cs : List Bytes)
    → flatten cs ≡ escape bs ++ 0xc0 ∷ rest
    → (left : List Bytes) × (poll read_frame (map buffer cs)
        ≡ (ready (ok bs), read_frame, map buffer left))
      × (flatten left ≡ rest)
poll-escape bs rest cs e =
    let a = poll-chunks read_frame cs in
    let s = ap (scan read_frame) e ∙ scan-escape [] bs rest in
    (
      a.left,
      λ i. ((a.result ∙ ap (λ s. s.broke) s) i, (a.future ∙ ap (λ s. s.future) s) i, a.reader i),
      a.unread ∙ ap (λ s. s.unread) s,
    )

-- `escape_frame` begins with the end mark too: of what it writes the first `read_frame` returns
-- an empty packet and the second the packet, and the bytes behind stay in the reader.
pub poll-escape_frame :
    (bs rest : Bytes) (cs : List Bytes)
    → flatten cs ≡ escape_frame bs [] ++ rest
    → (between left : List Bytes) × (poll read_frame (map buffer cs)
        ≡ (ready (ok []), read_frame, map buffer between))
      × (poll read_frame (map buffer between) ≡ (ready (ok bs), read_frame, map buffer left))
      × (flatten left ≡ rest)
poll-escape_frame bs rest cs e =
    let (between, first, e') =
      poll-escape [] (escape bs ++ 0xc0 ∷ rest) cs (e ∙ simp (escape_frame-escape, append_assoc)) in
    let (left, second, done) = poll-escape bs rest between e' in
    (between, left, first, second, done)
