-- ===== src/ProxyLink/Unescape.antt =====
-- The in-place expansion of escapes in `recv` computes the expansion of the packet as a list.
use native.Mathlib.Numerals.{add-one}
use farcri_rs.Prelude.{
  lt→ltb, Bool, ℕ, zero, suc, ◌+◌, ◌<◌, ◌≤◌, true, false, Option, none, some, [], ◌∷◌, ◌++◌, length,
  drop, ◌==◌, if◌then◌else◌, Bytes, ◌≡◌, refl, sym, ap, ◌∙◌, arith, append-nil, append_assoc,
  drop-drop_one, drop_one-drop, get_or_of_drop, length-eq_of_drop,
}
use farcri_rs.ProxyLink.{slip_frame_esc, unescape_code, next_byte, then?, unescape_loop}
use farcri_rs.Slip.{escape_byte}
use farcri_rs.Slip.RoundTrip.{escape}

abbrev pub cons? : ℕ → Option Bytes → Option Bytes
cons? b none = none
cons? b (some bs) = some (b ∷ bs)

abbrev unless_escape : Bool → ℕ → Option Bytes → Option Bytes
unless_escape true b o = o
unless_escape false b o = cons? b o

abbrev decoded : Option ℕ → Option Bytes → Option Bytes
decoded none o = none
decoded (some d) o = cons? d o

-- The packet that a frame's body stands for, behind an escape mark or not.
abbrev expand : Bool → Bytes → Option Bytes
expand false [] = some []
expand true [] = some (slip_frame_esc ∷ [])
expand false (b ∷ bs) = unless_escape (b == slip_frame_esc) b (expand (b == slip_frame_esc) bs)
expand true (c ∷ bs) = decoded (unescape_code c) (expand false bs)

-- The packet that a frame's body stands for. An escape mark that ends the body stands for itself.
abbrev pub unescape : Bytes → Option Bytes
unescape = expand false

-- What the loop makes of the packet: the bytes written so far, then the packet; the window has
-- moved on by as many cells.
abbrev pub written_back : Bytes → Bytes → Option Bytes → Option (Bytes × Bytes)
written_back done window none = none
written_back done window (some u) = some (done ++ u, drop (length u) window)

written_back-cons? :
    (done window : Bytes) (b : ℕ) (o : Option Bytes)
    → written_back (done ++ b ∷ []) (drop 1 window) o ≡ written_back done window (cons? b o)
written_back-cons? done window b none = refl
written_back-cons? done window b (some u) =
    λ i. some (append_assoc done (b ∷ []) u i, drop-drop_one (length u) window i)

drop-shift :
    (r : ℕ) (window : Bytes) {b : ℕ} {rem : Bytes}
    → drop r window ≡ b ∷ rem
    → drop r (drop 1 window) ≡ rem
drop-shift r window e = drop-drop_one r window ∙ sym (drop_one-drop r window) ∙ ap (drop 1) e

next_byte_last :
    (r : ℕ) (window : Bytes) {b : ℕ} → drop r window ≡ b ∷ [] → next_byte window r ≡ some (b, r)
unfolding next_byte
next_byte_last r window {b} e =
    ground (arith, length-eq_of_drop r window (b ∷ []) e, get_or_of_drop r window 0 e)

next_byte_lem :
    (r : ℕ) (window : Bytes) {b c : ℕ} {rem : Bytes}
    → drop r window ≡ b ∷ c ∷ rem
    → next_byte window r ≡ (
        if b == slip_frame_esc
        then elim (unescape_code c) [ none ↦ none | some d ↦ some (d, r + 1) ]
        else some (b, r))
unfolding next_byte
next_byte_lem r window {b} {c} {rem} e =
    let b1 = get_or_of_drop r window 0 e in
    let b2 = get_or_of_drop (suc r) window 0 (sym (drop_one-drop r window) ∙ ap (drop 1) e) in
    ground (arith, length-eq_of_drop r window (b ∷ c ∷ rem) e)

unescape_loop-suc :
    (f : ℕ) (done window : Bytes) (r : ℕ) (o : Option (ℕ × ℕ))
    → r < length window
    → next_byte window r ≡ o
    → unescape_loop (suc f) done window r
      ≡ then? o (λ b r'. unescape_loop f (done ++ b ∷ []) (drop 1 window) r')
unescape_loop-suc f done window r o h e = unfold unescape_loop in rw (e, lt→ltb _ _ h)

unescape_one : (b : ℕ) → unescape (b ∷ []) ≡ some (b ∷ [])
unescape_one b = ground arith

abbrev loop_on : ℕ → Bytes → Bytes → ℕ → ℕ → Option (Bytes × Bytes)
loop_on f done window b r = unescape_loop f (done ++ b ∷ []) (drop 1 window) r

-- One turn on a pair of bytes, from what the turns behind it do.
pair_lem :
    (f : ℕ) (done window : Bytes) (r b c : ℕ) (rem : Bytes)
    → loop_on f done window b r ≡ written_back (done ++ b ∷ []) (drop 1 window) (unescape (c ∷ rem))
    → ((d : ℕ)
        → loop_on f done window d (r + 1)
          ≡ written_back (done ++ d ∷ []) (drop 1 window) (unescape rem))
    → then?
        (if b == slip_frame_esc
          then elim (unescape_code c) [ none ↦ none | some d ↦ some (d, r + 1) ]
          else some (b, r))
        (loop_on f done window)
      ≡ written_back done window (unescape (b ∷ c ∷ rem))
pair_lem f done window r b c rem plain escaped = go (b == slip_frame_esc)
  where
    escape_pair :
        (d? : Option ℕ)
        → then? (elim d? [ none ↦ none | some d ↦ some (d, r + 1) ]) (loop_on f done window)
          ≡ written_back done window (decoded d? (unescape rem))
    escape_pair none = refl
    escape_pair (some d) = escaped d ∙ written_back-cons? done window d (unescape rem)

    go :
        (e : Bool)
        → then?
            (if e
              then elim (unescape_code c) [ none ↦ none | some d ↦ some (d, r + 1) ]
              else some (b, r))
            (loop_on f done window)
          ≡ written_back done window (unless_escape e b (expand e (c ∷ rem)))
    go true = escape_pair (unescape_code c)
    go false = plain ∙ written_back-cons? done window b (unescape (c ∷ rem))

pub unescape_loop-unescape :
    (f : ℕ) (done window : Bytes) (r : ℕ) (rem : Bytes)
    → drop r window ≡ rem
    → length rem < f
    → unescape_loop f done window r ≡ written_back done window (unescape rem)
unescape_loop-unescape zero done window r rem e h = elim h [ ]
unescape_loop-unescape (suc f) done window r [] e h =
    unfold unescape_loop in ground (arith, length-eq_of_drop r window [] e, append-nil done)
unescape_loop-unescape (suc f) done window r (b ∷ []) e h =
    unescape_loop-suc f done window r _ (omega (arith, length-eq_of_drop r window (b ∷ []) e))
      (next_byte_last r window e)
    ∙ unescape_loop-unescape f (done ++ b ∷ []) (drop 1 window) r [] (drop-shift r window e)
        (omega arith)
    ∙ written_back-cons? done window b (some [])
    ∙ ap (written_back done window) (sym (unescape_one b))
unescape_loop-unescape (suc f) done window r (b ∷ c ∷ rem) e h =
    let e1 = drop-shift r window e in
    let e2 : drop (r + 1) (drop 1 window) ≡ rem =
      rw add-one (sym (drop_one-drop r (drop 1 window)) ∙ ap (drop 1) e1) in
    unescape_loop-suc f done window r _ (omega (arith, length-eq_of_drop r window (b ∷ c ∷ rem) e))
      (next_byte_lem r window e)
    ∙ pair_lem f done window r b c rem
        (unescape_loop-unescape f (done ++ b ∷ []) (drop 1 window) r (c ∷ rem) e1 (omega arith))
        (λ d.
          unescape_loop-unescape f (done ++ d ∷ []) (drop 1 window) (r + 1) rem e2 (omega arith))

-- Expanding what `escape_frame` makes of a packet gives the packet back.
pub unescape-escape : (bs : Bytes) → unescape (escape bs) ≡ some bs
unfolding unescape_code escape_byte
unescape-escape [] = refl
unescape-escape (b ∷ bs) = ground (arith, unescape-escape bs)

abbrev Shorter : ℕ → Option Bytes → Type 0
Shorter n none = Unit
Shorter n (some u) = length u ≤ n

Shorter-cons? : (b n : ℕ) (o : Option Bytes) → Shorter n o → Shorter (suc n) (cons? b o)
Shorter-cons? b n none h = tt
Shorter-cons? b n (some u) h = omega arith

Shorter-weaken : (n : ℕ) (o : Option Bytes) → Shorter n o → Shorter (suc n) o
Shorter-weaken n none h = tt
Shorter-weaken n (some u) h = omega arith

abbrev BothShorter : Bytes → Type 0
BothShorter bs = Shorter (length bs) (expand false bs) × Shorter (suc (length bs)) (expand true bs)

Shorter-unless_escape :
    (b : ℕ) (bs : Bytes) (e : Bool)
    → BothShorter bs
    → Shorter (suc (length bs)) (unless_escape e b (expand e bs))
Shorter-unless_escape b bs true h = h.1
Shorter-unless_escape b bs false h = Shorter-cons? b _ (expand false bs) h.0

Shorter-decoded :
    (bs : Bytes) (d? : Option ℕ)
    → BothShorter bs
    → Shorter (suc (suc (length bs))) (decoded d? (expand false bs))
Shorter-decoded bs none h = tt
Shorter-decoded bs (some d) h =
    Shorter-weaken _ (cons? d (expand false bs)) (Shorter-cons? d _ (expand false bs) h.0)

expand-Shorter : (bs : Bytes) → BothShorter bs
expand-Shorter [] = (omega arith, omega arith)
expand-Shorter (b ∷ bs) =
    let h = expand-Shorter bs in
    (Shorter-unless_escape b bs (b == slip_frame_esc) h, Shorter-decoded bs (unescape_code b) h)

-- The expansion is no longer than the packet's body.
pub length-unescape : (bs : Bytes) {u : Bytes} → unescape bs ≡ some u → length u ≤ length bs
length-unescape bs e = rw e at (expand-Shorter bs).0
