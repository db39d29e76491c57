-- ===== src/Proxy/CcLink/Stream.antt =====
-- What one end of the connection sends, the other receives.
use farcri_rs.Prelude.{
  ℕ, zero, suc, ◌^◌, ◌<◌, Option, none, some, List, [], ◌∷◌, ◌++◌, map, length, Bytes, ◌≡◌, refl,
  sym, ap, ◌∙◌, arith, append-nil, append_assoc, length-append, lt→ltb,
}
use farcri_rs.Slip.{Fill, buffer}
use farcri_rs.Slip.Chunks.{flatten}
use farcri_rs.Futures.{Exact}
use farcri_rs.Futures.ReadExact.{eof, AreFull, IsReadExact, read_exact-head}
use farcri_rs.Proxy.CcLink.{
  be32, from_be32, CcLink, Result, ok, not_cargo_criterion, eof_reached, read_failed, blocked,
  reading, recv, send,
}

from_be32-be32 : (n : ℕ) → n < 2 ^ 32 → from_be32 (be32 n) ≡ n
from_be32-be32 n h = omega arith

abbrev pub AreShort : List Bytes → Type 0
AreShort [] = Unit {0}
AreShort (p ∷ ps) = (length p < 2 ^ 32) × AreShort ps

-- The bytes of some messages on the wire.
abbrev pub frames : List Bytes → Bytes
frames [] = []
frames (p ∷ ps) = (be32 (length p) ++ p) ++ frames ps

abbrev if_sent : Option CcLink → (CcLink → Option CcLink) → Option CcLink
if_sent none go = none
if_sent (some l) go = go l

unfoldable pub send_all : List Bytes → CcLink → Option CcLink
send_all [] l = some l
send_all (p ∷ ps) l = if_sent (send p l) (send_all ps)

abbrev and_then : {A B : Type 0} → Result A → (A → CcLink → Result B) → Result B
and_then (ok a l) go = go a l
and_then (not_cargo_criterion l) go = not_cargo_criterion l
and_then eof_reached go = eof_reached
and_then (read_failed e) go = read_failed e
and_then blocked go = blocked

unfoldable pub recv_all : (ℕ → List Fill → Exact) → ℕ → CcLink → Result (List Bytes)
recv_all read_exact zero l = ok [] l
recv_all read_exact (suc n) l =
    and_then (recv read_exact l)
      λ p l'. and_then (recv_all read_exact n l') λ ps l''. ok (p ∷ ps) l''

send-frame :
    (p : Bytes) (l : CcLink)
    → length p < 2 ^ 32
    → send p l ≡ some (record l { written = l.written ++ (be32 (length p) ++ p) })
unfolding send
send-frame p l h = rw (lt→ltb (length p) (2 ^ 32) h) refl

send_all-frames :
    (ps : List Bytes) (l : CcLink)
    → AreShort ps
    → send_all ps l ≡ some (record l { written = l.written ++ frames ps })
unfolding send_all
send_all-frames [] l h = ap (λ w. some (record l { written = w })) (sym (append-nil l.written))
send_all-frames (p ∷ ps) l (h, hs) =
    let frame = be32 (length p) ++ p in
    ap (λ o. if_sent o (send_all ps)) (send-frame p l h)
    ∙ send_all-frames ps (record l { written = l.written ++ frame }) hs
    ∙ ap (λ w. some (record l { written = w })) (append_assoc l.written frame (frames ps))

recv-frame :
    (read_exact : ℕ → List Fill → Exact) (law : IsReadExact read_exact) (p s : Bytes)
    (cs : List Bytes) (w : Bytes)
    → length p < 2 ^ 32
    → AreFull cs
    → flatten cs ≡ be32 (length p) ++ (p ++ s)
    → (left : List Bytes) × (flatten left ≡ s)
      × AreFull left
      × (recv read_exact (record { cc_stream = map buffer cs ++ eof; written = w })
          ≡ ok p (record { cc_stream = map buffer left ++ eof; written = w }))
unfolding recv reading
recv-frame read_exact law p s cs w h full e =
    let (left₁, r₁, f₁, full₁) =
      read_exact-head read_exact law (be32 (length p)) (p ++ s) cs full e in
    let (left₂, r₂, f₂, full₂) = read_exact-head read_exact law p s left₁ full₁ f₁ in
    let received = λ (b : Bytes) (r : List Fill). ok b (record { cc_stream = r; written = w }) in
    (
      left₂,
      f₂,
      full₂,
      ap (λ x. reading x (λ b r. reading (read_exact (from_be32 b) r) received)) r₁
          ∙ ap (λ n. reading (read_exact n (map buffer left₁ ++ eof)) received)
              (from_be32-be32 (length p) h)
          ∙ ap (λ x. reading x received) r₂,
    )

recv_all-frames :
    (read_exact : ℕ → List Fill → Exact) (law : IsReadExact read_exact) (ps : List Bytes)
    (cs : List Bytes) (w : Bytes)
    → AreShort ps
    → AreFull cs
    → flatten cs ≡ frames ps
    → recv_all read_exact (length ps) (record { cc_stream = map buffer cs ++ eof; written = w })
      ≡ ok ps (record { cc_stream = eof; written = w })
unfolding recv_all
recv_all-frames read_exact law [] [] w h full e = refl
recv_all-frames read_exact law [] (c ∷ cs) w h (pos, full) e =
    absurd (omega (arith, ap length e, length-append c (flatten cs)))
recv_all-frames read_exact law (p ∷ ps) cs w (h, hs) full e =
    let (left, f, full', r) =
      recv-frame read_exact law p (frames ps) cs w h full
        (e ∙ append_assoc (be32 (length p)) p (frames ps)) in
    rw (r, recv_all-frames read_exact law ps left w hs full' f) refl

-- Messages of fewer than 2 ^ 32 bytes can all be sent, and an end that reads what was sent, in whatever
-- buffers it comes, receives just these messages in their order.
pub recv_all-send_all :
    (read_exact : ℕ → List Fill → Exact) (law : IsReadExact read_exact) (ps : List Bytes)
    (sender : CcLink) (cs : List Bytes) (w : Bytes)
    → AreShort ps
    → AreFull cs
    → flatten cs ≡ frames ps
    → (send_all ps sender ≡ some (record sender { written = sender.written ++ flatten cs }))
      × (recv_all read_exact (length ps) (record { cc_stream = map buffer cs ++ eof; written = w })
          ≡ ok ps (record { cc_stream = eof; written = w }))
recv_all-send_all read_exact law ps sender cs w h full e = (
  send_all-frames ps sender h
      ∙ ap (λ x. some (record sender { written = sender.written ++ x })) (sym e),
  recv_all-frames read_exact law ps cs w h full e,
)
