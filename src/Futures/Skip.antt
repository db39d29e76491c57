-- ===== src/Futures/Skip.antt =====
-- `async_buf_read_skip_until_pattern` of src/utils/futures.rs finds the first occurrence of the pattern,
-- as long as no buffer is shorter than the pattern less one byte.
use farcri_rs.Prelude.{
  ℕ, suc, ◌+◌, ◌-◌, ◌<◌, ◌≤◌, Option, none, some, List, [], ◌∷◌, ◌++◌, map, length, take, drop,
  replicate, Bytes, ◌≡◌, refl, sym, ap, subst, ◌∙◌, arith, inl, inr, Bool-cases, length-append,
  length-take, length-replicate, take-append_exact,
}
use farcri_rs.Slip.{Fill, buffer, put_back}
use farcri_rs.Slip.Chunks.{flatten}
use farcri_rs.Futures.{
  window_eq, slice_find, Skipped, found, not_found, filled, kept, searched, skip_loop, Exact, exact,
  started, skip_until_pattern,
}
use farcri_rs.Futures.ReadExact.{eof, AreFull, IsReadExact}
use farcri_rs.Futures.Overlap.{take-filled, take-kept, across, not_across}
use farcri_rs.Futures.Find.{after, length-window, slice_find-after, after_missed}

-- Buffers that are not empty, and not shorter than `p`.
abbrev pub AreWide : ℕ → List Bytes → Type 0
AreWide p [] = Unit {0}
AreWide p (c ∷ cs) = (0 < length c) × (p ≤ length c) × AreWide p cs

AreWide-AreFull : (p : ℕ) (cs : List Bytes) → AreWide p cs → AreFull cs
AreWide-AreFull p [] w = tt
AreWide-AreFull p (c ∷ cs) (pos, wide, w) = (pos, AreWide-AreFull p cs w)

-- What lies behind the first occurrence is left in the reader; without one, the pattern is not found.
abbrev pub Skips : Option Bytes → Skipped → Type 0
Skips (some rest) (found r) =
    (left : List Bytes) × (r ≡ map buffer left ++ eof) × (flatten left ≡ rest) × AreFull left
Skips none not_found = Unit {0}
Skips _ _ = ⊥

after_short : (needle xs : Bytes) → length xs < length needle → after needle xs ≡ none
unfolding after
after_short needle [] h = refl
after_short needle (x ∷ xs) h = elim (Bool-cases (window_eq (x ∷ xs) needle)) [
  | inl e ↦ absurd (omega (arith, length-window (x ∷ xs) needle e))
  | inr e ↦ rw e (after_short needle xs (omega arith))
]

put_back-left :
    (bs : Bytes) (cs : List Bytes)
    → AreFull cs
    → (left : List Bytes) × (put_back bs (map buffer cs ++ eof) ≡ map buffer left ++ eof)
      × (flatten left ≡ bs ++ flatten cs)
      × AreFull left
put_back-left [] cs w = (cs, refl, refl, w)
put_back-left (b ∷ bs) cs w = ((b ∷ bs) ∷ cs, refl, refl, (omega arith, w))

found-Skips :
    (needle s bs : Bytes) (cs : List Bytes)
    → AreFull cs
    → after needle s ≡ some (bs ++ flatten cs)
    → Skips (after needle s) (found (put_back bs (map buffer cs ++ eof)))
found-Skips needle s bs cs w e =
    let (left, r, f, w') = put_back-left bs cs w in
    subst (λ o. Skips o (found (put_back bs (map buffer cs ++ eof)))) (sym e) (left, r, f, w')

module _ (p : ℕ) (pattern : Bytes) (n : length pattern ≡ suc p) where
  module _ (overlap buf : Bytes) (o : length overlap ≡ p + p) (wide : p ≤ length buf) where
    searched-Skips :
        (o1 o2 : Option ℕ) (cs : List Bytes) (next : Skipped)
        → AreFull cs
        → slice_find (take p overlap ++ take p buf) pattern ≡ o1
        → slice_find buf pattern ≡ o2
        → Skips (after pattern (drop (length buf - p) buf ++ flatten cs)) next
        → Skips
            (after pattern (take p overlap ++ (buf ++ flatten cs)))
            (searched p o1 o2 buf (map buffer cs ++ eof) next)
    unfolding searched
    searched-Skips (some i) o2 cs next full e1 e2 h =
        found-Skips pattern (take p overlap ++ (buf ++ flatten cs)) (drop (i + 1) buf) cs full
          (across p pattern n overlap buf o wide i cs e1)
    searched-Skips none (some i) cs next full e1 e2 h =
        let (same, fits) = slice_find-after pattern buf (flatten cs) i e2 in
        let q : i + length pattern ≡ i + (p + 1) = omega (arith, n) in
        found-Skips pattern (take p overlap ++ (buf ++ flatten cs)) (drop (i + (p + 1)) buf) cs full
          (not_across p pattern n overlap buf o wide (flatten cs) e1
            ∙ same
            ∙ ap (λ k. some (drop k buf ++ flatten cs)) q)
    searched-Skips none none cs next full e1 e2 h =
        subst (λ o. Skips o next)
          (sym (
            not_across p pattern n overlap buf o wide (flatten cs) e1
            ∙ after_missed pattern buf (flatten cs) p n e2 wide))
          h

  pub skip_loop-Skips :
      (overlap : Bytes) (cs : List Bytes)
      → length overlap ≡ p + p
      → AreWide p cs
      → Skips
          (after pattern (take p overlap ++ flatten cs))
          (skip_loop p pattern overlap (map buffer cs ++ eof))
  unfolding skip_loop
  skip_loop-Skips overlap [] o w =
      let short =
        after_short pattern (take p overlap ++ [])
          (omega (arith, n, length-append {0} (take p overlap) [], length-take p overlap)) in
      subst (λ o. Skips o not_found) (sym short) tt
  skip_loop-Skips overlap ([] ∷ cs) o (pos, wide, w) = absurd (omega arith)
  skip_loop-Skips overlap ((b ∷ bs) ∷ cs) o (pos, wide, w) =
      let buf = b ∷ bs in
      let (window, room) = take-kept p pattern n overlap buf o wide in
      let ih = skip_loop-Skips (kept p (filled p overlap buf) buf) cs room w in
      searched-Skips overlap buf o wide _ _ cs _ (AreWide-AreFull p cs w)
        (ap (λ x. slice_find x pattern) (sym (take-filled p pattern n overlap buf o wide))) refl
        (subst
          (λ x.
            Skips (after pattern (x ++ flatten cs))
              (skip_loop p pattern (kept p (filled p overlap buf) buf) (map buffer cs ++ eof)))
          window ih)

-- Let the reader's first buffer hold one byte less than the pattern and then `c`, and let neither `c`
-- nor a later buffer be empty or shorter than the pattern less one byte. Then up to the end of the
-- file the first occurrence of the pattern is found, whatever buffers it crosses, and just the bytes
-- behind it stay in the reader; it is reported missing only if there is none.
pub skip_until_pattern-Skips :
    (read_exact : ℕ → List Fill → Exact) (law : IsReadExact read_exact) (pattern h c : Bytes)
    (cs : List Bytes)
    → length pattern ≡ suc (length h)
    → AreWide (length h) (c ∷ cs)
    → Skips
        (after pattern (h ++ flatten (c ∷ cs)))
        (skip_until_pattern read_exact pattern (map buffer ((h ++ c) ∷ cs) ++ eof))
unfolding skip_until_pattern started
skip_until_pattern-Skips read_exact law pattern h c cs n (pos, wide, w) =
    let p = length h in
    let less : length pattern - 1 ≡ p = omega (arith, n) in
    let start : read_exact (length pattern - 1) (map buffer ((h ++ c) ∷ cs) ++ eof)
        ≡ exact h (map buffer (c ∷ cs) ++ eof) =
      ap (λ k. read_exact k (map buffer ((h ++ c) ∷ cs) ++ eof)) less ∙ law.within h c cs pos in
    let same : started (length pattern - 1) pattern
          (read_exact (length pattern - 1) (map buffer ((h ++ c) ∷ cs) ++ eof))
        ≡ skip_loop p pattern (h ++ replicate p 0) (map buffer (c ∷ cs) ++ eof) =
      ap (started (length pattern - 1) pattern) start
      ∙ ap (λ k. skip_loop k pattern (h ++ replicate k 0) (map buffer (c ∷ cs) ++ eof)) less in
    subst (Skips (after pattern (h ++ flatten (c ∷ cs)))) (sym same) (
      subst
        (λ x.
          Skips (after pattern (x ++ flatten (c ∷ cs)))
            (skip_loop p pattern (h ++ replicate p 0) (map buffer (c ∷ cs) ++ eof)))
        (take-append_exact h (replicate p 0))
        (skip_loop-Skips p pattern n (h ++ replicate p 0) (c ∷ cs)
          (omega (arith, length-append h (replicate p 0), length-replicate {A = ℕ} p 0))
          (pos, wide, w)))
