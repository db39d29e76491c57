-- ===== src/ProxyLink/Returns.antt =====
-- The loop of `recv` of src/bencher/proxylink.rs ends.
use farcri_rs.Prelude.{ℕ, zero, suc, ◌<◌, Option, none, some, length, ◌≡◌, ◌∙◌, arith}
use farcri_rs.ProxyLink.{
  ProxyLink, RecvStep, again, packet, invalid_escape, too_large, blocked, recv_step, recv, carry_on,
}
use farcri_rs.ProxyLink.Recv.{IsValid, measure, Ensures, recv_step-Ensures}

-- What `recv` returns: it is never out of fuel.
abbrev pub Returns : ProxyLink → Option RecvStep → Type 0
Returns l none = ⊥
Returns l (some (again _)) = ⊥
Returns l (some (packet bs l')) = IsValid l' × (length l'.buf ≡ length l.buf)
Returns l (some _) = Unit {0}

Returns-buf :
    (l l' : ProxyLink) (o : Option RecvStep)
    → length l'.buf ≡ length l.buf
    → Returns l' o
    → Returns l o
Returns-buf l l' none e h = h
Returns-buf l l' (some (again _)) e h = h
Returns-buf l l' (some (packet bs m)) e h = (h.0, h.1 ∙ e)
Returns-buf l l' (some invalid_escape) e h = h
Returns-buf l l' (some too_large) e h = h
Returns-buf l l' (some blocked) e h = h

-- From a valid link and with fuel above the measure, `recv` returns a packet, panics, or blocks on
-- the host; with a packet it returns a valid link of the same capacity.
pub recv-Returns : (f : ℕ) (l : ProxyLink) → IsValid l → measure l < f → Returns l (recv f l)
unfolding recv
recv-Returns zero l v h = elim h [ ]
recv-Returns (suc f) l v h = go (recv_step l) (recv_step-Ensures l v) (recv-Returns f)
  where
    go :
        (s : RecvStep)
        → Ensures l s
        → ((l' : ProxyLink) → IsValid l' → measure l' < f → Returns l' (recv f l'))
        → Returns l (carry_on s (λ l'. recv f l'))
    go (again l') (v', n, m) ih = Returns-buf l l' (recv f l') n (ih l' v' (omega arith))
    go (packet bs l') k ih = k
    go invalid_escape k ih = tt
    go too_large k ih = tt
    go blocked k ih = tt
