-- ===== src/Handshake/Requests.antt =====
-- The host of src/proxy/targetlink.rs reads the responses of the handshake to their end.
use farcri_rs.Prelude.{
  ℕ, zero, suc, ◌-◌, ◌≤◌, true, some, List, [], ◌∷◌, ◌++◌, map, length, replicate, Bytes, ◌≡◌, refl,
  sym, ap, subst, ◌∙◌, arith, append-nil, append_assoc, ==_iff, drop-append_exact,
}
use farcri_rs.Protocol.{handshake_end_magic}
use farcri_rs.Slip.{Fill, buffer}
use farcri_rs.Slip.Chunks.{flatten}
use farcri_rs.Futures.{Exact, window_eq}
use farcri_rs.Futures.Find.{after}
use farcri_rs.Futures.ReadExact.{eof, AreFull, IsReadExact, read_exact-head}
use farcri_rs.Handshake.{
  magic0, end_magic0, magic_tail, end_magic_tail, handshake_packet, packet_skipped, response,
  Connected, connected, drop_responses, requests,
}
use farcri_rs.Handshake.Replies.{IsJunk, packets}

-- The reader is at its end up to `s`, and `written` was sent.
abbrev pub IsConnected : Bytes → Bytes → Connected → Type 0
IsConnected written s (connected r w) =
    (left : List Bytes) × (r ≡ map buffer left ++ eof)
    × (flatten left ≡ s)
    × AreFull left
    × (w ≡ written)
IsConnected written s c = ⊥

module _ (read_exact : ℕ → List Fill → Exact) (law : IsReadExact read_exact) (nonce : Bytes) where
  packet_dropped :
      (f : ℕ) (written s : Bytes) (cs : List Bytes)
      → AreFull cs
      → flatten cs ≡ handshake_packet nonce ++ s
      → (left : List Bytes) × (flatten left ≡ s)
        × AreFull left
        × (drop_responses read_exact (suc f) (handshake_packet nonce) written (map buffer cs ++ eof)
            ≡ drop_responses read_exact f (handshake_packet nonce) written (map buffer left ++ eof))
  unfolding drop_responses response packet_skipped
  packet_dropped f written s cs w e =
      let (left₁, r₁, f₁, w₁) =
        read_exact-head read_exact law (magic0 ∷ []) ((magic_tail ++ nonce) ++ s) cs w e in
      let (left₂, r₂, f₂, w₂) =
        read_exact-head read_exact law (magic_tail ++ nonce) s left₁ w₁ f₁ in
      let n : length (handshake_packet nonce) - 1 ≡ length (magic_tail ++ nonce) = omega arith in
      (left₂, f₂, w₂, rw (r₁, n, r₂) refl)

  end_reached :
      (f : ℕ) (written s : Bytes) (cs : List Bytes)
      → AreFull cs
      → flatten cs ≡ handshake_end_magic ++ s
      → IsConnected written s (
          drop_responses read_exact (suc f) (handshake_packet nonce) written (map buffer cs ++ eof))
  unfolding drop_responses response packet_skipped
  end_reached f written s cs w e =
      let (left₁, r₁, f₁, w₁) =
        read_exact-head read_exact law (end_magic0 ∷ []) (end_magic_tail ++ s) cs w e in
      let (left₂, r₂, f₂, w₂) = read_exact-head read_exact law end_magic_tail s left₁ w₁ f₁ in
      rw (r₁, r₂) (left₂, refl, f₂, w₂, refl)

  pub drop_responses-IsConnected :
      (k f : ℕ) (written s : Bytes) (cs : List Bytes)
      → k ≤ f
      → AreFull cs
      → flatten cs ≡ packets (replicate k nonce) ++ (handshake_end_magic ++ s)
      → IsConnected written s (
          drop_responses read_exact (suc f) (handshake_packet nonce) written (map buffer cs ++ eof))
  drop_responses-IsConnected zero f written s cs h w e = end_reached f written s cs w e
  drop_responses-IsConnected (suc k) zero written s cs h w e = elim h [ ]
  drop_responses-IsConnected (suc k) (suc f) written s cs h w e =
      let behind = handshake_end_magic ++ s in
      let (left, e', w', r) =
        packet_dropped (suc f) written (packets (replicate k nonce) ++ behind) cs w
          (e ∙ append_assoc (handshake_packet nonce) (packets (replicate k nonce)) behind) in
      subst (IsConnected written s) (sym r)
        (drop_responses-IsConnected k f written s left (omega arith) w' e')

pub requests-packets :
    (nonce : Bytes) (k : ℕ)
    → requests (handshake_packet nonce) k ≡ packets (replicate (suc k) nonce)
unfolding requests
requests-packets nonce zero = sym (append-nil (handshake_packet nonce))
requests-packets nonce (suc k) = ap (λ x. handshake_packet nonce ++ x) (requests-packets nonce k)

window_eq_self : (xs ys : Bytes) → window_eq (xs ++ ys) xs ≡ true
unfolding window_eq
window_eq_self [] [] = refl
window_eq_self [] (y ∷ ys) = refl
window_eq_self (x ∷ xs) ys = rw ((==_iff x x).1 refl) (window_eq_self xs ys)

-- The first response is found behind bytes none of which begins one.
pub after-junk :
    (nonce junk s : Bytes)
    → IsJunk junk
    → after (handshake_packet nonce) (junk ++ (handshake_packet nonce ++ s)) ≡ some s
unfolding after window_eq
after-junk nonce [] s h =
    rw (window_eq_self (handshake_packet nonce) s)
      (ap some (drop-append_exact (handshake_packet nonce) s))
after-junk nonce (b ∷ junk) s (other, h) = rw other (after-junk nonce junk s h)
