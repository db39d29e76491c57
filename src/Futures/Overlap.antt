-- ===== src/Futures/Overlap.antt =====
-- The overlap of two buffers in `async_buf_read_skip_until_pattern` of src/utils/futures.rs.
use farcri_rs.Prelude.{
  ℕ, suc, ◌+◌, ◌-◌, ◌≤◌, min, none, some, List, [], ◌∷◌, ◌++◌, length, take, drop, leb, Bytes, ◌≡◌,
  refl, sym, ap, ◌∙◌, arith, inl, inr, Bool-cases, append-nil, append_assoc, length-append,
  length-take, length-drop, take-append-drop, drop-append_exact, take-length,
}
use farcri_rs.Buffer.{overwrite, length-overwrite, drop-add, take-exact}
use farcri_rs.Slip.Chunks.{flatten}
use farcri_rs.Futures.{slice_find, filled, kept}
use farcri_rs.Futures.Find.{after, drop-append_le, slice_find-after, after_missed}

drop_past : (w x : Bytes) (k : ℕ) → drop (length w + k) (w ++ x) ≡ drop k x
drop_past w x k = sym (drop-add (length w) k (w ++ x)) ∙ ap (drop k) (drop-append_exact w x)

module _ (p : ℕ) (pattern : Bytes) (n : length pattern ≡ suc p) where
  module _ (overlap buf : Bytes) (o : length overlap ≡ p + p) (wide : p ≤ length buf) where
    min_lem : min (length buf) p ≡ p
    min_lem = omega arith

    length-head : length (take p buf) ≡ p
    length-head = omega (arith, length-take p buf)

    length-window_before : length (take p overlap) ≡ p
    length-window_before = omega (arith, length-take p overlap)

    length-filled : length (filled p overlap buf) ≡ p + p
    length-filled =
        length-overwrite p (take (min (length buf) p) buf) overlap
          (rw min_lem (omega (arith, length-head)))
        ∙ o

    filled-split :
        filled p overlap buf
        ≡ (take p overlap ++ take p buf) ++ drop (p + length (take p buf)) overlap
    filled-split =
        ap (λ k. overwrite p (take k buf) overlap) min_lem
        ∙ sym (append_assoc (take p overlap) (take p buf) _)

    pub take-filled :
        take (p + min (length buf) p) (filled p overlap buf) ≡ take p overlap ++ take p buf
    take-filled =
        ap (take (p + min (length buf) p)) filled-split
        ∙ take-exact _ (take p overlap ++ take p buf) _ (
            omega (
              arith,
              length-append (take p overlap) (take p buf),
              length-head,
              length-window_before,
              min_lem,
            ))

    length-tail : length (drop (length buf - p) buf) ≡ p
    length-tail = omega (arith, length-drop (length buf - p) buf)

    -- What `overlap` holds behind both halves: nothing.
    rest_nil : (xs : Bytes) → length xs ≡ 0 → xs ≡ []
    rest_nil [] e = refl
    rest_nil (x ∷ xs) e = absurd (omega (arith, e))

    second_half : drop p (filled p overlap buf) ≡ take p buf
    second_half =
        let d = drop (p + length (take p buf)) overlap in
        let behind : d ≡ [] =
          rest_nil d (omega (arith, length-drop (p + length (take p buf)) overlap, length-head)) in
        ap (drop p) (filled-split ∙ append_assoc (take p overlap) (take p buf) d)
        ∙ ap (λ k. drop k (take p overlap ++ (take p buf ++ d))) (sym length-window_before)
        ∙ drop-append_exact (take p overlap) (take p buf ++ d)
        ∙ ap (λ x. take p buf ++ x) behind
        ∙ append-nil (take p buf)

    take-overwrite : (t xs : Bytes) → length t ≡ p → take p (overwrite 0 t xs) ≡ t
    take-overwrite t xs e = take-exact p t (drop (0 + length t) xs) (sym e)

    kept_lem :
        (t : Bytes)
        → length t ≡ p
        → (take p (overwrite 0 t (filled p overlap buf)) ≡ t)
          × (length (overwrite 0 t (filled p overlap buf)) ≡ p + p)
    kept_lem t e = (
      take-overwrite t (filled p overlap buf) e,
      length-overwrite 0 t (filled p overlap buf) (omega (arith, e, length-filled)) ∙ length-filled,
    )

    pub take-kept :
        (take p (kept p (filled p overlap buf) buf) ≡ drop (length buf - p) buf)
        × (length (kept p (filled p overlap buf) buf) ≡ p + p)
    take-kept = elim (Bool-cases (leb (length buf) p)) [
      | inl short ↦
          let half : length (filled p overlap buf) - p ≡ p = omega (arith, length-filled) in
          let t = drop (length (filled p overlap buf) - p) (filled p overlap buf) in
          let all : t ≡ drop (length buf - p) buf =
            ap (λ k. drop k (filled p overlap buf)) half
            ∙ second_half
            ∙ (let q : p ≡ length buf = ground arith in ap (λ k. take k buf) q)
            ∙ take-length buf
            ∙ (let q : 0 ≡ length buf - p = ground arith in ap (λ k. drop k buf) q) in
          let (a, b) = kept_lem t (ap length all ∙ length-tail) in rw short (a ∙ all, b)
      | inr long ↦ rw long (kept_lem (drop (length buf - p) buf) length-tail)
    ]

    -- The whole stream, cut behind the part that the first search looks at.
    stream-cut :
        (f : Bytes)
        → take p overlap ++ (buf ++ f) ≡ (take p overlap ++ take p buf) ++ (drop p buf ++ f)
    stream-cut f =
        ap (λ x. take p overlap ++ (x ++ f)) (sym (take-append-drop p buf))
        ∙ ap (λ x. take p overlap ++ x) (append_assoc (take p buf) (drop p buf) f)
        ∙ sym (append_assoc (take p overlap) (take p buf) (drop p buf ++ f))

    pub across :
        (i : ℕ) (cs : List Bytes)
        → slice_find (take p overlap ++ take p buf) pattern ≡ some i
        → after pattern (take p overlap ++ (buf ++ flatten cs))
          ≡ some (drop (i + 1) buf ++ flatten cs)
    across i cs e =
        let (same, fits) =
          slice_find-after pattern (take p overlap ++ take p buf) (drop p buf ++ flatten cs) i e in
        let q : i + length pattern ≡ length (take p overlap) + (i + 1) =
          omega (arith, n, length-window_before) in
        let small : i + 1 ≤ length (take p buf) =
          omega (arith, n, length-window_before, length-append (take p overlap) (take p buf)) in
        ap (after pattern) (stream-cut (flatten cs))
        ∙ same
        ∙ ap (λ x. some (x ++ (drop p buf ++ flatten cs)))
            (ap (λ k. drop k (take p overlap ++ take p buf)) q
              ∙ drop_past (take p overlap) (take p buf) (i + 1))
        ∙ ap some (
            sym (append_assoc (drop (i + 1) (take p buf)) (drop p buf) (flatten cs))
            ∙ ap (λ x. x ++ flatten cs)
                (sym (drop-append_le (i + 1) (take p buf) (drop p buf) small)
                  ∙ ap (drop (i + 1)) (take-append-drop p buf)))

    -- If nothing crosses into the buffer, only the buffer and what follows count.
    pub not_across :
        (f : Bytes)
        → slice_find (take p overlap ++ take p buf) pattern ≡ none
        → after pattern (take p overlap ++ (buf ++ f)) ≡ after pattern (buf ++ f)
    not_across f e =
        let l = length-append (take p overlap) (take p buf) in
        let q : length (take p overlap ++ take p buf) - p ≡ length (take p overlap) + 0 =
          omega (arith, l, length-head, length-window_before) in
        ap (after pattern) (stream-cut f)
        ∙ after_missed pattern (take p overlap ++ take p buf) (drop p buf ++ f) p n e
            (omega (arith, l, length-head))
        ∙ ap (λ x. after pattern (x ++ (drop p buf ++ f)))
            (ap (λ k. drop k (take p overlap ++ take p buf)) q
              ∙ drop_past (take p overlap) (take p buf) 0)
        ∙ ap (after pattern) (
            sym (append_assoc (take p buf) (drop p buf) f)
            ∙ ap (λ x. x ++ f) (take-append-drop p buf))
