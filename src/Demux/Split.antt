-- ===== src/Demux/Split.antt =====
-- What the channels of a stream are, byte by byte, for src/proxy/targets/demux.rs.
use farcri_rs.Prelude.{
  ℕ, zero, suc, ◌≤◌, Bool, true, false, Option, [], ◌∷◌, ◌++◌, length, take, drop, ◌==◌,
  if◌then◌else◌, Bytes, ◌≡◌, refl, ap, ◌∙◌, arith, inl, inr, Bool-cases, none, some,
}
use farcri_rs.ProxyLink.{position}
use farcri_rs.Demux.{
  State, header, primary, log, channel_primary, channel_log, delim, payload_len, unwrap_or,
}

-- What a byte is: a mark that belongs to no channel, or a byte of one.
pub data Kind : Type 0 where
  mark : Kind
  to_primary : Kind
  to_log : Kind

abbrev pub kind_of : State → ℕ → Kind
kind_of header b =
    if b == channel_primary
    then mark
    else if b == channel_log
    then mark
    else if b == delim
    then mark
    else to_primary
kind_of primary b = if b == delim then mark else to_primary
kind_of log b = if b == delim then mark else to_log

abbrev pub next_state : State → ℕ → State
next_state header b =
    if b == channel_primary
    then primary
    else if b == channel_log
    then log
    else if b == delim
    then header
    else primary
next_state primary b = if b == delim then header else primary
next_state log b = if b == delim then header else log

abbrev pub primary_byte : Kind → ℕ → Bytes
primary_byte to_primary b = b ∷ []
primary_byte _ b = []

abbrev pub log_byte : Kind → ℕ → Bytes
log_byte to_log b = b ∷ []
log_byte _ b = []

-- The primary channel of a stream, from a state on.
abbrev pub primary_of : State → Bytes → Bytes
primary_of s [] = []
primary_of s (b ∷ bs) = primary_byte (kind_of s b) b ++ primary_of (next_state s b) bs

-- Its log.
abbrev pub log_of : State → Bytes → Bytes
log_of s [] = []
log_of s (b ∷ bs) = log_byte (kind_of s b) b ++ log_of (next_state s b) bs

unwrap_or-next :
    (t : Bool) (o : Option ℕ) (k : ℕ)
    → unwrap_or
        (elim t [ true ↦ some 0 | false ↦ elim o [ none ↦ none | some i ↦ some (suc i) ] ])
        (suc k)
      ≡ (if t then 0 else suc (unwrap_or o k))
unwrap_or-next true o k = refl
unwrap_or-next false none k = refl
unwrap_or-next false (some i) k = refl

-- A payload ends at a delimiter.
pub payload_len_cons :
    (b : ℕ) (bs : Bytes) → payload_len (b ∷ bs) ≡ (if b == delim then 0 else suc (payload_len bs))
unfolding payload_len position
payload_len_cons b bs = unwrap_or-next (b == delim) (position delim bs) (length bs)

pub payload_len_other :
    (b : ℕ) (bs : Bytes) → (b == delim) ≡ false → payload_len (b ∷ bs) ≡ suc (payload_len bs)
payload_len_other b bs e = payload_len_cons b bs ∙ ap (λ t. if t then 0 else suc (payload_len bs)) e

pub payload_len-delim : (b : ℕ) (bs : Bytes) → (b == delim) ≡ true → payload_len (b ∷ bs) ≡ 0
payload_len-delim b bs e = payload_len_cons b bs ∙ ap (λ t. if t then 0 else suc (payload_len bs)) e

-- Inside a chunk the bytes up to the next delimiter are of its channel alone.
pub primary_of-take :
    (n : ℕ) (bs : Bytes)
    → n ≤ payload_len bs
    → primary_of primary bs ≡ take n bs ++ primary_of primary (drop n bs)
primary_of-take zero bs h = refl
primary_of-take (suc n) [] h = refl
primary_of-take (suc n) (b ∷ bs) h = elim (Bool-cases (b == delim)) [
  | inl e ↦ absurd (omega (arith, h, payload_len-delim b bs e))
  | inr e ↦
      let ih = primary_of-take n bs (omega (arith, h, payload_len_other b bs e)) in
      rw e (ap (◌∷◌ b) ih)
]

pub log_of-take :
    (n : ℕ) (bs : Bytes)
    → n ≤ payload_len bs
    → (log_of log bs ≡ take n bs ++ log_of log (drop n bs))
      × (primary_of log bs ≡ primary_of log (drop n bs))
      × (log_of primary bs ≡ log_of primary (drop n bs))
log_of-take zero bs h = (refl, refl, refl)
log_of-take (suc n) [] h = (refl, refl, refl)
log_of-take (suc n) (b ∷ bs) h = elim (Bool-cases (b == delim)) [
  | inl e ↦ absurd (omega (arith, h, payload_len-delim b bs e))
  | inr e ↦
      let (l, p, q) = log_of-take n bs (omega (arith, h, payload_len_other b bs e)) in
      rw e (ap (◌∷◌ b) l, p, q)
]

pub payload_len-le :
    (bs ys : Bytes) → (payload_len bs ≤ length bs) × (payload_len bs ≤ payload_len (bs ++ ys))
unfolding payload_len position
payload_len-le [] ys = (omega arith, omega arith)
payload_len-le (b ∷ bs) ys =
    let (p, q) = payload_len-le bs ys in
    elim (Bool-cases (b == delim)) [
      | inl e ↦ let n = payload_len-delim b bs e in (omega (arith, n), omega (arith, n))
      | inr e ↦
          let n = payload_len_other b bs e in
          (omega (arith, n, p), omega (arith, n, payload_len_other b (bs ++ ys) e, q))
    ]
