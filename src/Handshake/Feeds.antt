-- ===== src/Handshake/Feeds.antt =====
-- What the target of src/bencher/proxylink.rs reads, byte by byte.
use farcri_rs.Prelude.{
  ℕ, ◌+◌, ◌-◌, ◌<◌, ◌≤◌, Option, some, List, [], ◌∷◌, ◌++◌, length, get_or, take, drop, ◌==◌, Bytes,
  ◌≡◌, refl, sym, ap, ◌∙◌, arith, inl, inr, Bool-cases, Option-cases, ==_iff,
}
use farcri_rs.Buffer.{slice, slice-head, length-overwrite, take-exact}
use farcri_rs.Slip.Chunks.{flatten}
use farcri_rs.ProxyLink.{io_read}
use farcri_rs.ProxyLink.Slices.{io_read_lem, io_read-none}
use farcri_rs.Handshake.{
  Feed, refill, refilled, next, matched, read_matching, read_byte, matched_byte, read_nonce,
}

-- What the target will read is `s`, and what it has written is `out`.
pub record Gets (out s : Bytes) (fd : Feed) : Type 0 where
  pub stream : slice fd.pos fd.len fd.buf ++ flatten fd.io.input ≡ s
  pub written : fd.io.output ≡ out
  pub pos_le : fd.pos ≤ fd.len
  pub len_le : fd.len ≤ length fd.buf
  pub room : 0 < length fd.buf

-- A read of `b` from `o`, with `s` behind it.
abbrev pub Gives : Bytes → ℕ → Bytes → Option (ℕ × Feed) → Type 0
Gives out b s o = (fd : Feed) × (o ≡ some (b, fd)) × Gets out s fd

refilled-Gives :
    (out : Bytes) (b : ℕ) (s : Bytes) (fd : Feed) (bs : Bytes) (input : List Bytes)
    → 0 < length bs
    → length bs ≤ length fd.buf
    → bs ++ flatten input ≡ b ∷ s
    → fd.io.output ≡ out
    → Gives out b s (refilled fd (some (bs, input)))
unfolding refilled
refilled-Gives out b s fd [] input h k e w = absurd (omega arith)
refilled-Gives out b s fd (c ∷ cs) input h k e w =
    let head : c ≡ b = cc in
    let tail : cs ++ flatten input ≡ s = cc in
    let q : length (c ∷ cs) - 1 ≡ length cs = omega arith in
    let n = length-overwrite 0 (c ∷ cs) fd.buf (omega arith) in
    (
      refill fd (c ∷ cs) input,
      ap (λ c'. some (c', refill fd (c ∷ cs) input)) head,
      record {
        stream = ap (λ xs. xs ++ flatten input) (take-exact (length (c ∷ cs) - 1) cs _ q) ∙ tail;
        written = w;
        pos_le = omega arith;
        len_le = omega (arith, n);
        room = omega (arith, n);
      },
    )

pub next-Gives :
    (out : Bytes) (b : ℕ) (s : Bytes) (fd : Feed) → Gets out (b ∷ s) fd → Gives out b s (next fd)
unfolding next
next-Gives out b s fd g = elim (Bool-cases (fd.pos == fd.len)) [
  | inl empty ↦
      let at_end = (==_iff fd.pos fd.len).0 empty in
      let nothing : slice fd.pos fd.len fd.buf ≡ [] =
        let p : fd.len - fd.pos ≡ 0 = omega arith in ap (λ n. take n (drop fd.pos fd.buf)) p in
      let all : flatten fd.io.input ≡ b ∷ s =
        ap (λ xs. xs ++ flatten fd.io.input) (sym nothing) ∙ g.stream in
      elim (Option-cases (io_read (length fd.buf) fd.io.input)) [
        | inl starved ↦
            let none_left = io_read-none (length fd.buf) fd.io.input g.room starved in cc
        | inr ((bs, input), e) ↦
            let (some_byte, fits, order) = io_read_lem (length fd.buf) fd.io.input e in
            rw (empty, e)
              (refilled-Gives out b s fd bs input some_byte fits (sym order ∙ all) g.written)
      ]
  | inr more ↦
      let order = slice-head fd.pos fd.len fd.buf (ground (arith, g.pos_le)) g.len_le in
      let both : get_or fd.buf fd.pos 0 ∷ (slice (fd.pos + 1) fd.len fd.buf ++ flatten fd.io.input)
          ≡ b ∷ s =
        ap (λ xs. xs ++ flatten fd.io.input) (sym order) ∙ g.stream in
      let here : get_or fd.buf fd.pos 0 ≡ b = cc in
      let rest : slice (fd.pos + 1) fd.len fd.buf ++ flatten fd.io.input ≡ s = cc in
      rw more (
        record fd { pos = fd.pos + 1 },
        ap (λ c. some (c, record fd { pos = fd.pos + 1 })) here,
        record {
          stream = rest;
          written = g.written;
          pos_le = ground (arith, g.pos_le);
          len_le = g.len_le;
          room = g.room;
        },
      )
]

pub read_matching-matched :
    (out bs s : Bytes) (fd : Feed)
    → Gets out (bs ++ s) fd
    → (fd' : Feed) × (read_matching bs fd ≡ matched fd') × Gets out s fd'
unfolding read_matching matched_byte
read_matching-matched out [] s fd g = (fd, refl, g)
read_matching-matched out (b ∷ bs) s fd g =
    let (fd', e, g') = next-Gives out b (bs ++ s) fd g in
    let (fd'', e', g'') = read_matching-matched out bs s fd' g' in
    (fd'', rw (e, (==_iff b b).1 refl) e', g'')

pub read_nonce-read :
    (out bs s : Bytes) (fd : Feed)
    → Gets out (bs ++ s) fd
    → (fd' : Feed) × (read_nonce (length bs) fd ≡ some (bs, fd')) × Gets out s fd'
unfolding read_nonce read_byte
read_nonce-read out [] s fd g = (fd, refl, g)
read_nonce-read out (b ∷ bs) s fd g =
    let (fd', e, g') = next-Gives out b (bs ++ s) fd g in
    let (fd'', e', g'') = read_nonce-read out bs s fd' g' in (fd'', rw (e, e') refl, g'')
