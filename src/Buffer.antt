-- ===== src/Buffer.antt =====
-- Slices of a byte buffer, and writes into it.
use native.Mathlib.Nat.{zero-add}
use farcri_rs.Prelude.{
  ℕ, zero, suc, ◌+◌, ◌-◌, ◌<◌, ◌≤◌, [], ◌∷◌, ◌++◌, length, get_or, take, drop, Bytes, ◌≡◌, refl,
  sym, ap, ◌∙◌, arith, append_assoc, length-append, length-take, get_or-drop, length-drop,
  drop-write, take-append_exact, drop-eq-cons,
}

-- `buf[start..end]`
abbrev pub slice : ℕ → ℕ → Bytes → Bytes
slice start end buf = take (end - start) (drop start buf)

-- `buf[at..][..data.len()].copy_from_slice(data)`
abbrev pub overwrite : ℕ → Bytes → Bytes → Bytes
overwrite at bs buf = take at buf ++ (bs ++ drop (at + length bs) buf)

get_or-take_eq : (n i : ℕ) (xs : Bytes) → i < n → get_or (take n xs) i 0 ≡ get_or xs i 0
get_or-take_eq zero i xs h = elim h [ ]
get_or-take_eq (suc n) i [] h = refl
get_or-take_eq (suc n) zero (x ∷ xs) h = refl
get_or-take_eq (suc n) (suc i) (x ∷ xs) h = get_or-take_eq n i xs (omega arith)

pub get_or-slice :
    (start stop i : ℕ) (buf : Bytes)
    → i < stop - start
    → get_or (slice start stop buf) i 0 ≡ get_or buf (start + i) 0
get_or-slice start stop i buf h =
    get_or-take_eq (stop - start) i (drop start buf) h ∙ get_or-drop start i buf 0

pub length-slice :
    (start stop : ℕ) (buf : Bytes)
    → stop ≤ length buf
    → length (slice start stop buf) ≡ stop - start
length-slice start stop buf h =
    omega (arith, length-take (stop - start) (drop start buf), length-drop start buf)

pub get_or-append : (xs ys : Bytes) (i : ℕ) → i < length xs → get_or (xs ++ ys) i 0 ≡ get_or xs i 0
get_or-append [] ys i h = elim h [ ]
get_or-append (x ∷ xs) ys zero h = refl
get_or-append (x ∷ xs) ys (suc i) h = get_or-append xs ys i (omega arith)

pub get_or-overwrite :
    (at i : ℕ) (bs buf : Bytes)
    → i < at
    → at ≤ length buf
    → get_or (overwrite at bs buf) i 0 ≡ get_or buf i 0
get_or-overwrite at i bs buf h k =
    get_or-append (take at buf) _ i (omega (arith, length-take at buf)) ∙ get_or-take_eq at i buf h

pub length-overwrite :
    (at : ℕ) (bs buf : Bytes)
    → at + length bs ≤ length buf
    → length (overwrite at bs buf) ≡ length buf
length-overwrite at bs buf h = omega (
  arith,
  length-append (take at buf) (bs ++ drop (at + length bs) buf),
  length-append bs (drop (at + length bs) buf),
  length-take at buf,
  length-drop (at + length bs) buf,
)

pub drop-overwrite :
    (at n : ℕ) (bs buf : Bytes)
    → at ≤ length buf
    → at + length bs ≤ n
    → drop n (overwrite at bs buf) ≡ drop n buf
drop-overwrite zero n bs buf h k = rw zero-add (drop-write n bs buf (omega arith))
drop-overwrite (suc a) n bs [] h k = elim h [ ]
drop-overwrite (suc a) zero bs (x ∷ buf) h k = absurd (omega arith)
drop-overwrite (suc a) (suc n) bs (x ∷ buf) h k =
    let p : suc a + length bs ≡ suc (a + length bs) = omega arith in
    rw p (drop-overwrite a n bs buf (omega arith) (omega arith))

pub drop-take_append_le :
    (m n : ℕ) (xs ys : Bytes)
    → m ≤ n
    → n ≤ length xs
    → drop m (take n xs ++ ys) ≡ take (n - m) (drop m xs) ++ ys
drop-take_append_le zero n xs ys h k = let p : n - 0 ≡ n = omega arith in rw p
drop-take_append_le (suc m) zero xs ys h k = elim h [ ]
drop-take_append_le (suc m) (suc n) [] ys h k = elim k [ ]
drop-take_append_le (suc m) (suc n) (x ∷ xs) ys h k =
    let p : suc n - suc m ≡ n - m = omega arith in
    rw p (drop-take_append_le m n xs ys (omega arith) (omega arith))

pub take-take_le : (m n : ℕ) (xs : Bytes) → m ≤ n → take m (take n xs) ≡ take m xs
take-take_le zero n xs h = refl
take-take_le (suc m) zero xs h = elim h [ ]
take-take_le (suc m) (suc n) [] h = refl
take-take_le (suc m) (suc n) (x ∷ xs) h = ap (◌∷◌ x) (take-take_le m n xs (omega arith))

pub take-exact : (n : ℕ) (xs ys : Bytes) → n ≡ length xs → take n (xs ++ ys) ≡ xs
take-exact n xs ys e = rw e (take-append_exact xs ys)

-- The slice behind which bytes are written, and those bytes.
pub slice-overwrite :
    (start at : ℕ) (bs buf : Bytes)
    → start ≤ at
    → at ≤ length buf
    → slice start (at + length bs) (overwrite at bs buf) ≡ slice start at buf ++ bs
slice-overwrite start at bs buf h k =
    let s = slice start at buf in
    let behind = drop (at + length bs) buf in
    ap (take (at + length bs - start))
      (drop-take_append_le start at buf (bs ++ behind) h k ∙ sym (append_assoc s bs behind))
    ∙ take-exact _ (s ++ bs) behind (omega (arith, length-append s bs, length-slice start at buf k))

take-add : (m n : ℕ) (xs : Bytes) → take (m + n) xs ≡ take m xs ++ take n (drop m xs)
take-add zero n xs = rw zero-add
take-add (suc m) n [] = let p : suc m + n ≡ suc (m + n) = omega arith in rw p (take_none n)
  where
    take_none : (k : ℕ) → ◌≡◌ {A = Bytes} [] (take k [])
    take_none zero = refl
    take_none (suc k) = refl
take-add (suc m) n (x ∷ xs) =
    let p : suc m + n ≡ suc (m + n) = omega arith in rw p (ap (◌∷◌ x) (take-add m n xs))

pub drop-add : (m n : ℕ) (xs : Bytes) → drop n (drop m xs) ≡ drop (m + n) xs
drop-add zero n xs = rw zero-add
drop-add (suc m) zero [] = let p : suc m + 0 ≡ suc m = omega arith in rw p
drop-add (suc m) (suc n) [] = let p : suc m + suc n ≡ suc (m + suc n) = omega arith in rw p
drop-add (suc m) n (x ∷ xs) =
    let p : suc m + n ≡ suc (m + n) = omega arith in rw p (drop-add m n xs)

pub slice-cut :
    (start mid stop : ℕ) (buf : Bytes)
    → start ≤ mid
    → mid ≤ stop
    → slice start stop buf ≡ slice start mid buf ++ slice mid stop buf
slice-cut start mid stop buf h k =
    let p : stop - start ≡ mid - start + (stop - mid) = omega arith in
    let q : start + (mid - start) ≡ mid = omega arith in
    ap (λ n. take n (drop start buf)) p
    ∙ take-add (mid - start) (stop - mid) (drop start buf)
    ∙ ap (λ xs. slice start mid buf ++ take (stop - mid) xs)
        (drop-add start (mid - start) buf ∙ ap (λ n. drop n buf) q)

-- A slice is its first bytes and the slice behind them.
pub slice-take :
    (start n stop : ℕ) (buf : Bytes)
    → start + n ≤ stop
    → slice start stop buf ≡ take n (slice start stop buf) ++ slice (start + n) stop buf
slice-take start n stop buf h =
    let q : start + n - start ≡ n = omega arith in
    let behind = drop start buf in
    slice-cut start (start + n) stop buf (omega arith) h
    ∙ ap (λ x. x ++ slice (start + n) stop buf)
        (ap (λ k. take k behind) q ∙ sym (take-take_le n (stop - start) behind (omega arith)))

pub slice-head :
    (start stop : ℕ) (buf : Bytes)
    → start < stop
    → stop ≤ length buf
    → slice start stop buf ≡ get_or buf start 0 ∷ slice (start + 1) stop buf
slice-head start stop buf h k =
    let p : stop - start ≡ suc (stop - (start + 1)) = omega arith in
    let q : start + 1 ≡ suc start = omega arith in
    (λ i. take (p i) (drop-eq-cons start buf 0 (omega arith) i))
    ∙ ap (λ n. get_or buf start 0 ∷ take (stop - (start + 1)) (drop n buf)) (sym q)

pub take-append_le : (n : ℕ) (xs ys : Bytes) → n ≤ length xs → take n (xs ++ ys) ≡ take n xs
take-append_le zero xs ys h = refl
take-append_le (suc n) [] ys h = absurd (omega arith)
take-append_le (suc n) (x ∷ xs) ys h = ap (◌∷◌ x) (take-append_le n xs ys (omega arith))

pub take-append_ge :
    (n : ℕ) (xs ys : Bytes) → length xs ≤ n → take n (xs ++ ys) ≡ xs ++ take (n - length xs) ys
take-append_ge n [] ys h = let p : n - length {A = ℕ} [] ≡ n = omega arith in rw p
take-append_ge zero (x ∷ xs) ys h = absurd (omega arith)
take-append_ge (suc n) (x ∷ xs) ys h =
    let p : suc n - length (x ∷ xs) ≡ n - length xs = omega arith in
    rw p (ap (◌∷◌ x) (take-append_ge n xs ys (omega arith)))

pub drop-append_ge :
    (n : ℕ) (xs ys : Bytes) → length xs ≤ n → drop n (xs ++ ys) ≡ drop (n - length xs) ys
drop-append_ge n [] ys h = let p : n - length {A = ℕ} [] ≡ n = omega arith in rw p
drop-append_ge zero (x ∷ xs) ys h = absurd (omega arith)
drop-append_ge (suc n) (x ∷ xs) ys h =
    let p : suc n - length (x ∷ xs) ≡ n - length xs = omega arith in
    rw p (drop-append_ge n xs ys (omega arith))
