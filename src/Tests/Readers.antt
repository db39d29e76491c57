-- ===== src/Tests/Readers.antt =====
-- A reader that reads as `IsReadExact` says.
use farcri_rs.Prelude.{
  ℕ, zero, suc, ◌-◌, ◌<◌, ◌≤◌, List, [], ◌∷◌, ◌++◌, map, length, take, drop, ltb, ltb→lt, lt→ltb,
  if◌then◌else◌, Bytes, ◌≡◌, refl, sym, ap, ◌∙◌, arith, inl, inr, Bool-cases, length-append,
  length-drop, take-append_exact, drop-append_exact,
}
use farcri_rs.Buffer.{take-append_le, take-append_ge, drop-append_ge}
use farcri_rs.Slip.{Fill, buffer, fill_error, fill_pending}
use farcri_rs.Slip.Chunks.{flatten}
use farcri_rs.Futures.{Exact, exact, unexpected_eof, exact_failed, exact_waits}
use farcri_rs.Futures.ReadExact.{eof, AreFull, Leaves, IsReadExact}
use farcri_rs.Futures.Find.{drop-append_le}

more : Bytes → Exact → Exact
more bs (exact cs r) = exact (bs ++ cs) r
more bs unexpected_eof = unexpected_eof
more bs (exact_failed e) = exact_failed e
more bs exact_waits = exact_waits

-- `n` bytes of what the polls give.
unfoldable pub read_exact : ℕ → List Fill → Exact
unfolding more
read_exact zero r = exact [] r
read_exact (suc n) [] = exact_waits
read_exact (suc n) (fill_error e ∷ r) = exact_failed e
read_exact (suc n) (fill_pending ∷ r) = read_exact (suc n) r
read_exact (suc n) (buffer [] ∷ r) = unexpected_eof
read_exact (suc n) (buffer (b ∷ bs) ∷ r) =
    let next = more (b ∷ bs) (read_exact (n - length bs) r) in
    if ltb n (length bs) then exact (b ∷ take n bs) (buffer (drop n bs) ∷ r) else next

read_exact-take :
    (k : ℕ) (cs : List Bytes)
    → AreFull cs
    → k ≤ length (flatten cs)
    → Leaves (take k (flatten cs)) (drop k (flatten cs)) (read_exact k (map buffer cs ++ eof))
unfolding read_exact more
read_exact-take zero cs w h = (cs, refl, refl, w)
read_exact-take (suc n) [] w h = elim h [ ]
read_exact-take (suc n) ([] ∷ cs) (pos, w) h = absurd (omega arith)
read_exact-take (suc n) ((b ∷ bs) ∷ cs) (pos, w) h =
    let before =
      read_exact-take (n - length bs) cs w (omega (arith, length-append bs (flatten cs))) in
    elim (Bool-cases (ltb n (length bs))) [
      | inl part ↦ rw part (
        drop n bs ∷ cs,
        ap (λ x. exact (b ∷ x) (map buffer (drop n bs ∷ cs) ++ eof))
            (sym (take-append_le n bs (flatten cs) (ground arith))),
        sym (drop-append_le n bs (flatten cs) (ground arith)),
        (omega (arith, length-drop n bs, (ltb→lt n (length bs) part)), w),
      )
      | inr whole ↦
          let long : length bs ≤ n = ground arith in
          let (left, e, f, w') = before in
          rw (whole, e)
            (
              left,
              ap (λ x. exact (b ∷ x) (map buffer left ++ eof))
                  (sym (take-append_ge n bs (flatten cs) long)),
              f ∙ sym (drop-append_ge n bs (flatten cs) long),
              w',
            )
    ]

read_exact-head :
    (h c : Bytes) (r : List Fill)
    → 0 < length c
    → read_exact (length h) (buffer (h ++ c) ∷ r) ≡ exact h (buffer c ∷ r)
unfolding read_exact
read_exact-head [] c r pos = refl
read_exact-head (x ∷ h) c r pos =
    rw
      (
        lt→ltb (length h) (length (h ++ c)) (omega (arith, length-append h c)),
        take-append_exact h c,
        drop-append_exact h c,
      )
      refl

pub read_exact-IsReadExact : IsReadExact read_exact
read_exact-IsReadExact = record {
  reads = read_exact-take;
  within = λ h c cs pos. read_exact-head h c (map buffer cs ++ eof) pos;
}
