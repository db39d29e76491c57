-- ===== src/Futures/ReadExact.antt =====
-- What the program relies on of `read_exact` of the third-party crate tokio, which src/utils/futures.rs,
-- src/proxy/targetlink.rs and src/proxy/ccfront.rs read with.
use farcri_rs.Prelude.{
  ℕ, ◌<◌, ◌≤◌, List, [], ◌∷◌, ◌++◌, map, length, take, drop, Bytes, ◌≡◌, ap, ◌∙◌, arith,
  length-append, take-append_exact, drop-append_exact,
}
use farcri_rs.Slip.{Fill, buffer}
use farcri_rs.Slip.Chunks.{flatten}
use farcri_rs.Futures.{Exact, exact}

-- The end of the file.
abbrev pub eof : List Fill
eof = buffer [] ∷ []

abbrev pub AreFull : List Bytes → Type 0
AreFull [] = Unit {0}
AreFull (c ∷ cs) = (0 < length c) × AreFull cs

-- What is left in the reader is `s`.
abbrev pub Leaves : Bytes → Bytes → Exact → Type 0
Leaves bs s e =
    (left : List Bytes) × (e ≡ exact bs (map buffer left ++ eof))
    × (flatten left ≡ s)
    × AreFull left

-- The bytes that are asked for are read and just what comes behind them is left, in buffers that are not
-- empty; if the first buffer holds more, its rest is left where it is.
pub record IsReadExact (read_exact : ℕ → List Fill → Exact) : Type 0 where
  pub reads :
      (k : ℕ) (cs : List Bytes)
      → AreFull cs
      → k ≤ length (flatten cs)
      → Leaves (take k (flatten cs)) (drop k (flatten cs)) (read_exact k (map buffer cs ++ eof))
  pub within :
      (h c : Bytes) (cs : List Bytes)
      → 0 < length c
      → read_exact (length h) (map buffer ((h ++ c) ∷ cs) ++ eof)
        ≡ exact h (map buffer (c ∷ cs) ++ eof)

pub read_exact-head :
    (read_exact : ℕ → List Fill → Exact) (law : IsReadExact read_exact) (bs s : Bytes)
    (cs : List Bytes)
    → AreFull cs
    → flatten cs ≡ bs ++ s
    → Leaves bs s (read_exact (length bs) (map buffer cs ++ eof))
read_exact-head read_exact law bs s cs w e =
    let (left, r, f, w') =
      law.reads (length bs) cs w (omega (arith, ap length e, length-append bs s)) in
    (
      left,
      r
          ∙ ap (λ x. exact x (map buffer left ++ eof))
              (ap (take (length bs)) e ∙ take-append_exact bs s),
      f ∙ ap (drop (length bs)) e ∙ drop-append_exact bs s,
      w',
    )
