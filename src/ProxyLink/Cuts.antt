-- ===== src/ProxyLink/Cuts.antt =====
-- Where `position` finds a byte, and where it does not.
use farcri_rs.Prelude.{
  ℕ, zero, suc, ◌<◌, none, some, [], ◌∷◌, length, get_or, Bytes, ◌≡◌, ◌≢◌, refl, arith,
}
use farcri_rs.ProxyLink.{position}

pub position-eq_none :
    (x : ℕ) (bs : Bytes) → ((i : ℕ) → i < length bs → get_or bs i 0 ≢ x) → position x bs ≡ none
unfolding position
position-eq_none x [] h = refl
position-eq_none x (b ∷ bs) h =
    ground (arith, h 0, position-eq_none x bs (λ i k. h (suc i) (omega arith)))

pub position-get : (x : ℕ) (bs : Bytes) (i : ℕ) → position x bs ≡ some i → get_or bs i 0 ≡ x
unfolding position
position-get x [] i e = cc
position-get x (b ∷ bs) zero e = ground arith
position-get x (b ∷ bs) (suc i) e =
    let before : position x bs ≡ some i = ground arith in position-get x bs i before

pub position-before :
    (x : ℕ) (bs : Bytes) (i j : ℕ) → position x bs ≡ some i → j < i → get_or bs j 0 ≢ x
unfolding position
position-before x [] i j e h = cc
position-before x (b ∷ bs) zero j e h = absurd (omega arith)
position-before x (b ∷ bs) (suc i) zero e h = ground arith
position-before x (b ∷ bs) (suc i) (suc j) e h =
    let before : position x bs ≡ some i = ground arith in
    position-before x bs i j before (omega arith)
