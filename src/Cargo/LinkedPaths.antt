-- ===== src/Cargo/LinkedPaths.antt =====
-- The linked paths that cargo reports, and the prefixes that src/cargo.rs takes off them.
use farcri_rs.Prelude.{
  Option, none, some, List, [], ◌∷◌, ◌++◌, length, drop, codes, Bytes, ◌≡◌, ◌≢◌, refl, sym, ap, ◌∙◌,
  inl, inr, Bool-cases, take-append-drop,
}
use farcri_rs.Futures.{window_eq}
use farcri_rs.Futures.Find.{window_eq-take}
use farcri_rs.Cargo.{remove, library_path}

pub data Prefix : Type 0 where
  dependency crate native framework all : Prefix

abbrev pub prefix : Prefix → Bytes
prefix dependency = codes "dependency="
prefix crate = codes "crate="
prefix native = codes "native="
prefix framework = codes "framework="
prefix all = codes "all="

-- A path that is linked, and what kind cargo says it is of.
pub record Linked : Type 0 where
  pub kind : Option Prefix
  pub path : Bytes

abbrev pub with_prefix : Option Prefix → Bytes → Bytes
with_prefix none path = path
with_prefix (some p) path = prefix p ++ path

abbrev pub text_of : Linked → Bytes
text_of l = with_prefix l.kind l.path

-- None of the prefixes stands anywhere in the path.
abbrev pub IsPlain : Bytes → Type 0
IsPlain path = (p : Prefix) (before after : Bytes) → path ≢ before ++ (prefix p ++ after)

abbrev pub AllPlain : List Linked → Type 0
AllPlain [] = Unit {0}
AllPlain (l ∷ ls) = IsPlain l.path × AllPlain ls

remove_lem :
    (pattern path : Bytes)
    → ((before after : Bytes) → path ≢ before ++ (pattern ++ after))
    → remove pattern 0 path ≡ path
unfolding remove
remove_lem pattern [] h = refl
remove_lem pattern (x ∷ xs) h = elim (Bool-cases (window_eq (x ∷ xs) pattern)) [
  | inl found ↦
      let behind = drop (length pattern) (x ∷ xs) in
      absurd (
        h [] behind (
          sym (take-append-drop (length pattern) (x ∷ xs))
          ∙ ap (λ t. t ++ behind) (window_eq-take (x ∷ xs) pattern found)))
  | inr other ↦
      rw other
        (ap (◌∷◌ x) (remove_lem pattern xs (λ before after e. h (x ∷ before) after (ap (◌∷◌ x) e))))
]

library_path-plain : (path : Bytes) → IsPlain path → library_path path ≡ path
unfolding library_path
library_path-plain path h =
    let kept = λ (p : Prefix). remove_lem (prefix p) path (h p) in
    rw (kept dependency, kept crate, kept native, kept framework, kept all) refl

library_path-prefix :
    (p : Prefix) (path : Bytes) → IsPlain path → library_path (prefix p ++ path) ≡ path
unfolding library_path remove
library_path-prefix dependency path h = library_path-plain path h
library_path-prefix crate path h = library_path-plain path h
library_path-prefix native path h = library_path-plain path h
library_path-prefix framework path h = library_path-plain path h
library_path-prefix all path h = library_path-plain path h

pub library_path-with_prefix :
    (kind : Option Prefix) (path : Bytes)
    → IsPlain path
    → library_path (with_prefix kind path) ≡ path
library_path-with_prefix none path h = library_path-plain path h
library_path-with_prefix (some p) path h = library_path-prefix p path h
