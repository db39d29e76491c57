-- ===== src/Arch/Total.antt =====
-- `from_str` of src/proxy/targets/mod.rs ends, and never reaches its `unreachable!()`.
use farcri_rs.Prelude.{
  ℕ, zero, suc, ◌+◌, ◌-◌, ◌<◌, ◌≤◌, true, Option, none, some, [], ◌∷◌, length, get_or, take, drop,
  ltb, Bytes, ◌≡◌, refl, ap, sym, ◌∙◌, arith, inl, inr, Bool-cases, get_or-drop, ltb→lt,
}
use farcri_rs.Arch.{Arch, named_archs}
use farcri_rs.Arch.Text.{
  Parsed, unreachable, out_of_fuel, is_sign, find_sign, sign_or_end, next_sign, find_named,
  enabled_arch, features, from_base, from_str,
}

abbrev pub Settles : Parsed → Type 0
Settles unreachable = ⊥
Settles out_of_fuel = ⊥
Settles _ = Unit {0}

-- At `i` there is a sign, or the end of the text.
abbrev AtSign : Bytes → ℕ → Type 0
AtSign s i = i < length s → is_sign (get_or s i 0) ≡ true

find_sign-sign :
    (bs : Bytes) (k : ℕ)
    → find_sign bs ≡ some k
    → (is_sign (get_or bs k 0) ≡ true) × (k < length bs)
unfolding find_sign
find_sign-sign [] k e = cc
find_sign-sign (b ∷ bs) zero e = (ground arith, omega arith)
find_sign-sign (b ∷ bs) (suc k) e =
    let later : find_sign bs ≡ some k = ground arith in
    let (sign, inside) = find_sign-sign bs k later in (sign, omega arith)

next_sign-AtSign :
    (s : Bytes) (i : ℕ) → i ≤ length s → AtSign s (next_sign s i) × (i ≤ next_sign s i)
unfolding next_sign
next_sign-AtSign s i h = go (find_sign (drop i s)) refl
  where
    go :
        (o : Option ℕ)
        → find_sign (drop i s) ≡ o
        → AtSign s (sign_or_end (length s) i o) × (i ≤ sign_or_end (length s) i o)
    go none e = ((λ k. absurd (omega arith)), h)
    go (some k) e =
        let p : k + i ≡ i + k = omega arith in
        (
          (λ _. rw p (ap is_sign (sym (get_or-drop i k s 0)) ∙ (find_sign-sign (drop i s) k e).0)),
          omega arith,
        )

enabled_arch-Settles :
    (name : Bytes) (o : Option Arch) (go : Arch → Parsed)
    → ((a : Arch) → Settles (go a))
    → Settles (enabled_arch name o go)
enabled_arch-Settles name none go h = tt
enabled_arch-Settles name (some a) go h = h a

features_turn :
    (n : ℕ) (s : Bytes) (i : ℕ) (arch : Arch)
    → AtSign s i
    → (i < length s → (a : Arch) → Settles (features n s (next_sign s (i + 1)) a))
    → Settles (features (suc n) s i arch)
features_turn n s i arch sign h = elim (Bool-cases (ltb i (length s))) [
  | inl more ↦
      let inside = ltb→lt i (length s) more in
      unfold features in rw (more, sign inside) (enabled_arch-Settles _ _ _ (h inside))
  | inr done ↦ unfold features in rw done tt
]

features-Settles :
    (n : ℕ) (s : Bytes) (i : ℕ) (arch : Arch)
    → AtSign s i
    → length s - i < n
    → Settles (features n s i arch)
features-Settles zero s i arch sign h = elim h [ ]
features-Settles (suc n) s i arch sign h = features_turn n s i arch sign λ inside a.
    let (sign', further) = next_sign-AtSign s (i + 1) (omega arith) in
    features-Settles n s (next_sign s (i + 1)) a sign' (omega arith)

-- Whatever the text, `from_str` gives an architecture or one of its two errors.
pub from_str-Settles : (s : Bytes) → Settles (from_str s)
from_str-Settles s = unfold from_str in go (find_named (take (next_sign s 0) s) named_archs)
  where
    go : (o : Option Arch) → Settles (from_base s (next_sign s 0) o)
    go none = unfold from_base in tt
    go (some arch) =
        unfold from_base in
        features-Settles (suc (length s)) s (next_sign s 0) arch
          (next_sign-AtSign s 0 (omega arith)).0 (omega arith)
