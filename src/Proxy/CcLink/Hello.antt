-- ===== src/Proxy/CcLink/Hello.antt =====
-- How the connection to cargo-criterion begins.
use farcri_rs.Prelude.{
  ℕ, codes, List, [], ◌∷◌, ◌++◌, map, length, get_or, take, drop, if◌then◌else◌, Bytes, ◌≡◌, ◌≢◌,
  refl, sym, ap, subst, ◌∙◌, arith, inl, inr, Bool-cases, drop-eq-cons, drop-length,
}
use farcri_rs.Slip.{Fill, buffer}
use farcri_rs.Slip.Chunks.{flatten}
use farcri_rs.Futures.{window_eq, Exact}
use farcri_rs.Futures.Find.{window_eq-take, take-window_eq}
use farcri_rs.Futures.ReadExact.{eof, AreFull, IsReadExact, read_exact-head}
use farcri_rs.Proxy.CcProtocol.{runner_magic_number, runner_hello_size}
use farcri_rs.Proxy.CcLink.{benchmark_hello, Result, ok, not_cargo_criterion, reading, new}

version_lem :
    (hello : Bytes)
    → length hello ≡ 18
    → get_or hello 15 0 ∷ get_or hello 16 0 ∷ get_or hello 17 0 ∷ [] ≡ drop 15 hello
version_lem hello n = sym (
    drop-eq-cons 15 hello 0 (omega (arith, n))
    ∙ ap (◌∷◌ (get_or hello 15 0)) (
        drop-eq-cons 16 hello 0 (omega (arith, n))
        ∙ ap (◌∷◌ (get_or hello 16 0)) (
            drop-eq-cons 17 hello 0 (omega (arith, n))
            ∙ ap (◌∷◌ (get_or hello 17 0)) (ap (λ k. drop k hello) (sym n) ∙ drop-length hello))))

-- The runner's magic number is at the head of its hello; then its version is known, and of this end the
-- magic number, the crate's version, and 1 and 1 as numbers of 16 bits have been sent, and no more. What
-- comes behind the hello is left. If there is no magic number, nothing has been sent.
abbrev pub Greets : (major minor patch : ℕ) → Bytes → Bytes → Result Bytes → Type 0
Greets major minor patch hello s (ok version l) =
    (take 15 hello ≡ codes "cargo-criterion")
    × (version ≡ drop 15 hello)
    × (l.written ≡ codes "Criterion" ++ (major ∷ minor ∷ patch ∷ 0 ∷ 1 ∷ 0 ∷ 1 ∷ []))
    × (left : List Bytes) × (l.cc_stream ≡ map buffer left ++ eof)
    × (flatten left ≡ s)
Greets major minor patch hello s (not_cargo_criterion l) =
    (take 15 hello ≢ codes "cargo-criterion") × (l.written ≡ [])
Greets major minor patch hello s _ = ⊥

-- A peer whose hello of 18 bytes has been read is sent this end's hello, which has the crate's version, if
-- it has the runner's magic number, and refused without a byte being sent otherwise.
pub new-Greets :
    (read_exact : ℕ → List Fill → Exact) (law : IsReadExact read_exact) (major minor patch : ℕ)
    (hello s : Bytes) (cs : List Bytes)
    → length hello ≡ runner_hello_size
    → AreFull cs
    → flatten cs ≡ hello ++ s
    → Greets major minor patch hello s (new read_exact major minor patch (map buffer cs ++ eof))
unfolding new reading
new-Greets read_exact law major minor patch hello s cs n full e =
    let (left, r, f, full') = read_exact-head read_exact law hello s cs full e in
    let go = λ (hello_buf : Bytes) (r' : List Fill).
      if window_eq hello_buf runner_magic_number
      then ok (get_or hello_buf 15 0 ∷ get_or hello_buf 16 0 ∷ get_or hello_buf 17 0 ∷ [])
          (record { cc_stream = r'; written = benchmark_hello major minor patch })
      else not_cargo_criterion (record { cc_stream = r'; written = [] }) in
    let judged : Greets major minor patch hello s (go hello (map buffer left ++ eof)) =
      elim (Bool-cases (window_eq hello runner_magic_number)) [
        | inl same ↦ rw same (
          window_eq-take hello runner_magic_number same,
          version_lem hello n,
          refl,
          left,
          refl,
          f,
        )
        | inr other ↦
            rw other
              (λ same. (let head = take-window_eq hello runner_magic_number same in cc), refl)
      ] in
    subst (λ k. Greets major minor patch hello s (reading (read_exact k (map buffer cs ++ eof)) go))
      n (subst (λ x. Greets major minor patch hello s (reading x go)) (sym r) judged)
