-- ===== src/Futures/Find.antt =====
-- What `slice_find` of src/utils/futures.rs finds.
use farcri_rs.Prelude.{
  ℕ, zero, suc, ◌+◌, ◌-◌, ◌≤◌, Bool, true, false, ◌&&◌, Option, none, some, [], ◌∷◌, ◌++◌, length,
  take, drop, ◌==◌, if◌then◌else◌, Bytes, ◌≡◌, ◌⊎◌, refl, ap, ◌∙◌, arith, inl, inr, Bool-cases,
  ==_iff,
}
use farcri_rs.Futures.{window_eq, next_place, slice_find}

-- What lies behind the first place where a needle stands.
unfoldable pub after : Bytes → Bytes → Option Bytes
after needle [] = none
after needle (x ∷ xs) =
    if window_eq (x ∷ xs) needle then some (drop (length needle) (x ∷ xs)) else after needle xs

pub window_eq-append :
    (xs ys needle : Bytes)
    → length needle ≤ length xs
    → window_eq (xs ++ ys) needle ≡ window_eq xs needle
unfolding window_eq
window_eq-append [] ys [] h = refl
window_eq-append (x ∷ xs) ys [] h = refl
window_eq-append [] ys (n ∷ ns) h = absurd (omega arith)
window_eq-append (x ∷ xs) ys (n ∷ ns) h =
    ap (λ b. x == n && b) (window_eq-append xs ys ns (omega arith))

-- A window is as long as the needle.
pub length-window : (xs needle : Bytes) → window_eq xs needle ≡ true → length needle ≤ length xs
unfolding window_eq
length-window xs [] h = omega arith
length-window [] (n ∷ ns) h = cc
length-window (x ∷ xs) (n ∷ ns) h =
    let later : window_eq xs ns ≡ true = ground arith in omega (arith, length-window xs ns later)

pub drop-append_le : (n : ℕ) (xs ys : Bytes) → n ≤ length xs → drop n (xs ++ ys) ≡ drop n xs ++ ys
drop-append_le zero xs ys h = refl
drop-append_le (suc n) [] ys h = absurd (omega arith)
drop-append_le (suc n) (x ∷ xs) ys h = drop-append_le n xs ys (omega arith)

found_place :
    (b : Bool) (o : Option ℕ) (i : ℕ)
    → (if b then some 0 else next_place o) ≡ some i
    → ((b ≡ true) × (0 ≡ i)) ⊎ ((j : ℕ) × (b ≡ false) × (o ≡ some j) × (suc j ≡ i))
found_place true o i e = inl (refl, cc)
found_place false none i e = cc
found_place false (some j) i e = inr (j, refl, refl, cc)

missed_place :
    (b : Bool) (o : Option ℕ)
    → (if b then some 0 else next_place o) ≡ none
    → (b ≡ false) × (o ≡ none)
missed_place true o e = cc
missed_place false none e = (refl, refl)
missed_place false (some j) e = cc

-- A needle that is found in a part is found in the whole, with the same rest of the part.
pub slice_find-after :
    (needle xs ys : Bytes) (i : ℕ)
    → slice_find xs needle ≡ some i
    → (after needle (xs ++ ys) ≡ some (drop (i + length needle) xs ++ ys))
      × (i + length needle ≤ length xs)
unfolding slice_find after
slice_find-after needle [] ys i e = cc
slice_find-after needle (x ∷ xs) ys i e =
    elim (found_place (window_eq (x ∷ xs) needle) (slice_find xs needle) i e) [
      | inl (here, q) ↦
          let n = length-window (x ∷ xs) needle here in
          let p : length needle ≡ i + length needle = omega arith in
          (
            rw (window_eq-append (x ∷ xs) ys needle n, here)
                (ap some (
                  drop-append_le (length needle) (x ∷ xs) ys n
                  ∙ ap (λ k. drop k (x ∷ xs) ++ ys) p)),
            omega arith,
          )
      | inr (j, there, later, q) ↦
          let (same, fits) = slice_find-after needle xs ys j later in
          let p : i + length needle ≡ suc (j + length needle) = omega arith in
          (rw (p, not_here x xs ys needle there (omega arith)) same, omega arith)
    ]
  where
    not_here :
        (x : ℕ) (xs ys needle : Bytes)
        → window_eq (x ∷ xs) needle ≡ false
        → length needle ≤ suc (length xs)
        → window_eq (x ∷ (xs ++ ys)) needle ≡ false
    not_here x xs ys needle h k = window_eq-append (x ∷ xs) ys needle k ∙ h

-- If a needle of `p + 1` bytes is not found in a part, only the last `p` bytes of the part can begin
-- an occurrence in the whole.
pub after_missed :
    (needle xs ys : Bytes) (p : ℕ)
    → length needle ≡ suc p
    → slice_find xs needle ≡ none
    → p ≤ length xs
    → after needle (xs ++ ys) ≡ after needle (drop (length xs - p) xs ++ ys)
unfolding slice_find after
after_missed needle [] ys p n e h = let q : 0 - p ≡ 0 = omega arith in rw q
after_missed needle (x ∷ xs) ys p n e h =
    let (there, later) = missed_place (window_eq (x ∷ xs) needle) (slice_find xs needle) e in
    elim (Bool-cases (p == suc (length xs))) [
      | inl same ↦ (let q : suc (length xs) - p ≡ 0 = ground arith in rw q)
      | inr other ↦
          let less : p ≤ length xs = ground arith in
          let q : suc (length xs) - p ≡ suc (length xs - p) = omega arith in
          rw (q, window_eq-append (x ∷ xs) ys needle (omega arith), there)
            (after_missed needle xs ys p n later less)
    ]

pub window_eq-take : (xs ns : Bytes) → window_eq xs ns ≡ true → take (length ns) xs ≡ ns
unfolding window_eq
window_eq-take xs [] h = refl
window_eq-take [] (n ∷ ns) h = cc
window_eq-take (x ∷ xs) (n ∷ ns) h =
    let same : (x == n) ≡ true = ground arith in
    let later : window_eq xs ns ≡ true = ground arith in
    (λ i. (==_iff x n).0 same i ∷ window_eq-take xs ns later i)

pub take-window_eq : (xs ns : Bytes) → take (length ns) xs ≡ ns → window_eq xs ns ≡ true
unfolding window_eq
take-window_eq [] [] h = refl
take-window_eq (x ∷ xs) [] h = refl
take-window_eq [] (n ∷ ns) h = cc
take-window_eq (x ∷ xs) (n ∷ ns) h =
    let same : x ≡ n = cc in
    let later : take (length ns) xs ≡ ns = cc in
    rw ((==_iff x n).1 same) (take-window_eq xs ns later)
