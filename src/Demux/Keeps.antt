-- ===== src/Demux/Keeps.antt =====
-- What is kept of the two channels by what src/proxy/targets/demux.rs does.
use farcri_rs.Prelude.{
  ℕ, ◌<◌, ◌≤◌, List, [], ◌∷◌, ◌++◌, length, take, drop, Bytes, ◌≡◌, refl, sym, ◌∙◌, arith,
}
use farcri_rs.Futures.Find.{drop-append_le}
use farcri_rs.Slip.{Fill, buffer, put_back}
use farcri_rs.Demux.{
  State, header, primary, log, LogWrite, write_error, Demux, Filled, filled, failed, waits,
  panicked, out_of_fuel, Turn, again, done, consume_inner, consumed, bytes_of, header_left, measure,
}
use farcri_rs.Demux.Split.{primary_of, log_of}

-- What the primary channel still has, and the log.
abbrev pub primary_left : Demux → Bytes
primary_left d = primary_of d.st (bytes_of d.inner)

abbrev pub log_left : Demux → Bytes
log_left d = log_of d.st (bytes_of d.inner)

-- The standard output takes all that it is given.
abbrev pub NoErrors : List LogWrite → Type 0
NoErrors [] = Unit {0}
NoErrors (write_error ∷ w) = ⊥
NoErrors (_ ∷ w) = NoErrors w

-- The reader comes to the end of the file.
abbrev pub Ends : List Fill → Type 0
Ends [] = ⊥
Ends (buffer [] ∷ r) = Unit {0}
Ends (_ ∷ r) = Ends r

-- Nothing of the primary channel is lost, and nothing of the log but what the standard output failed
-- to take.
pub record Keeps (d d' : Demux) : Type 0 where
  pub primary : primary_left d' ≡ primary_left d
  pub log : NoErrors d.writes → d'.log_out ++ log_left d' ≡ d.log_out ++ log_left d
  pub errors : NoErrors d.writes → NoErrors d'.writes
  pub ends : Ends d'.inner → Ends d.inner

-- The buffer is the head of the primary channel, as far as it is consumed.
pub record IsPayload (xs : Bytes) (d : Demux) : Type 0 where
  pub not_empty : 0 < length xs
  pub consumes :
      (k : ℕ)
      → k ≤ length xs
      → (primary_left d ≡ take k xs ++ primary_left (consumed k d))
        × (log_left d ≡ log_left (consumed k d))
  pub at_end : (k : ℕ) → Ends (consume_inner k d.inner) → Ends d.inner

abbrev pub Fills : Demux → Filled → Type 0
Fills d (filled xs d') = Keeps d d' × IsPayload xs d'
Fills d (failed e d') = Keeps d d'
Fills d (waits d') = Keeps d d'
Fills d panicked = Ends d.inner
Fills d out_of_fuel = ⊥

abbrev pub Turns : Demux → Turn → Type 0
Turns d (again d') = Keeps d d' × (measure d' < measure d)
Turns d (done f) = Fills d f

pub Keeps-Keeps : {d d' d'' : Demux} → Keeps d d' → Keeps d' d'' → Keeps d d''
Keeps-Keeps k k' = record {
  primary = k'.primary ∙ k.primary;
  log = λ h. k'.log (k.errors h) ∙ k.log h;
  errors = λ h. k'.errors (k.errors h);
  ends = λ h. k.ends (k'.ends h);
}

pub Keeps-refl : (d : Demux) → Keeps d d
Keeps-refl d = record { primary = refl; log = λ h. refl; errors = λ h. h; ends = λ h. h }

pub Fills-Keeps : (d d' : Demux) (f : Filled) → Keeps d d' → Fills d' f → Fills d f
Fills-Keeps d d' (filled xs e) k (k', p) = (Keeps-Keeps k k', p)
Fills-Keeps d d' (failed x e) k k' = Keeps-Keeps k k'
Fills-Keeps d d' (waits e) k k' = Keeps-Keeps k k'
Fills-Keeps d d' panicked k h = k.ends h
Fills-Keeps d d' out_of_fuel k h = h

pub bytes_of-put_back : (bs : Bytes) (r : List Fill) → bytes_of (put_back bs r) ≡ bs ++ bytes_of r
bytes_of-put_back [] r = refl
bytes_of-put_back (b ∷ bs) r = refl

pub Ends-put_back : (bs : Bytes) (r : List Fill) → Ends (put_back bs r) → Ends r
Ends-put_back [] r h = h
Ends-put_back (b ∷ bs) r h = h

pub Ends-buffer : (bs : Bytes) (r : List Fill) → Ends r → Ends (buffer bs ∷ r)
Ends-buffer [] r h = tt
Ends-buffer (b ∷ bs) r h = h

pub Ends-consume :
    (k : ℕ) (bs : Bytes) (r : List Fill) → Ends (put_back (drop k bs) r) → Ends (buffer bs ∷ r)
Ends-consume k bs r h = Ends-buffer bs r (Ends-put_back (drop k bs) r h)

pub header_left_le : (s : State) → header_left s ≤ 1
header_left_le header = omega arith
header_left_le primary = omega arith
header_left_le log = omega arith

pub bytes_of-consume :
    (k : ℕ) (bs : Bytes) (r : List Fill)
    → k ≤ length bs
    → bytes_of (consume_inner k (buffer bs ∷ r)) ≡ drop k (bs ++ bytes_of r)
bytes_of-consume k bs r h =
    bytes_of-put_back (drop k bs) r ∙ sym (drop-append_le k bs (bytes_of r) h)
