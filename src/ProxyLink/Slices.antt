-- ===== src/ProxyLink/Slices.antt =====
-- What `position` and `io_read` find.
use farcri_rs.Prelude.{
  ℕ, zero, suc, ◌<◌, ◌≤◌, none, some, List, [], ◌∷◌, ◌++◌, length, get_or, take, drop, Bytes, ◌≡◌,
  ◌≢◌, refl, sym, ap, ◌∙◌, arith, append_assoc, length-take, take-append-drop,
}
use farcri_rs.ProxyLink.{position, io_read}
use farcri_rs.Slip.Chunks.{flatten}

-- Where the byte is found; before that place it is not.
pub position-none :
    (x : ℕ) (bs : Bytes) (i : ℕ) → position x bs ≡ none → i < length bs → get_or bs i 0 ≢ x
unfolding position
position-none x [] i e h = elim h [ ]
position-none x (b ∷ bs) zero e h = ground arith
position-none x (b ∷ bs) (suc i) e h = ground (arith, position-none x bs i)

pub position-some :
    (x : ℕ) (bs : Bytes) (i : ℕ)
    → position x bs ≡ some i
    → (i < length bs) × (bs ≡ take i bs ++ x ∷ drop (suc i) bs) × (position x (take i bs) ≡ none)
unfolding position
position-some x [] i e = cc
position-some x (b ∷ bs) zero e = ground arith
position-some x (b ∷ bs) (suc i) e =
    let before : position x bs ≡ some i = ground arith in
    let (h, split, none_before) = position-some x bs i before in
    (omega arith, ap (◌∷◌ b) split, ground arith)

-- A read gives at least one byte and no more than the slice holds, in the order of arrival.
pub io_read_lem :
    (m : ℕ) (input : List Bytes) {bs : Bytes} {input' : List Bytes}
    → io_read m input ≡ some (bs, input')
    → (0 < length bs) × (length bs ≤ m) × (flatten input ≡ bs ++ flatten input')
unfolding io_read
io_read_lem zero input e = cc
io_read_lem (suc m) [] e = cc
io_read_lem (suc m) ([] ∷ r) e = io_read_lem (suc m) r e
io_read_lem (suc m) ((b ∷ bs) ∷ r) {bs = xs} {input' = ys} e =
    let p : b ∷ take m bs ≡ xs = cc in
    let q : drop m bs ∷ r ≡ ys = cc in
    let n = ap length p in
    (
      omega (arith, n),
      omega (arith, n, length-take m bs),
      ap (◌∷◌ b) (
            ap (λ zs. zs ++ flatten r) (sym (take-append-drop m bs))
            ∙ append_assoc (take m bs) (drop m bs) (flatten r))
          ∙ (λ i. p i ++ flatten (q i)),
    )

-- A read into a slice that has room blocks only if the host sends nothing more.
pub io_read-none :
    (m : ℕ) (input : List Bytes) → 0 < m → io_read m input ≡ none → flatten input ≡ []
unfolding io_read
io_read-none zero input h e = elim h [ ]
io_read-none (suc m) [] h e = refl
io_read-none (suc m) ([] ∷ r) h e = io_read-none (suc m) r h e
io_read-none (suc m) ((b ∷ bs) ∷ r) h e = cc
