-- ===== src/Serde.antt =====
-- The wrappers of src/utils/stdserde.rs: how a `Vec` and a `String` are read back. The formats are
-- third-party: a sequence is the list of what `next_element` will give.
use farcri_rs.Prelude.{
  ℕ, min, Option, none, some, List, [], ◌∷◌, ◌++◌, map, Bytes, ◌≡◌, ap, sym, ◌∙◌, append-nil,
  append_assoc,
}
use farcri_rs.Futures.{Attempt, ok, err}

-- `size_hint::cautious`
abbrev pub cautious : Option ℕ → ℕ
cautious none = min 0 4096
cautious (some hint) = min hint 4096

-- `none`: the sequence goes on behind the list.
abbrev pub Outcome : Type 0 → Type 0 → Type 0
Outcome T E = Option (Attempt (List T) E)

module _ {T E : Type 0} where
  -- The loop of `visit_seq`, with the values so far.
  unfoldable pub visit_loop : List (Attempt (Option T) E) → List T → Outcome T E
  visit_loop [] values = none
  visit_loop (ok (some value) ∷ seq) values = visit_loop seq (values ++ value ∷ [])
  visit_loop (ok none ∷ seq) values = some (ok values)
  visit_loop (err e ∷ seq) values = some (err e)

  -- `visit_seq`; the capacity that is asked for beforehand is `cautious` of the hint.
  unfoldable pub visit_seq : List (Attempt (Option T) E) → Outcome T E
  unfolding visit_loop
  visit_seq seq = visit_loop seq []

-- `visit_bytes`, by `from_utf8` of the standard library.
abbrev pub visit_bytes :
    {Str E : Type 0} → (Bytes → Option Str) → (Bytes → E) → Bytes → Attempt Str E
visit_bytes from_utf8 invalid_value v = elim (from_utf8 v) [
  | none ↦ err (invalid_value v)
  | some s ↦ ok s
]

-- `collect_seq` of the elements, as they are read back.
abbrev pub elements : {T E : Type 0} → List T → List (Attempt (Option T) E)
elements xs = map (λ x. ok (some x)) xs

visit_loop-elements :
    {T E : Type 0} (xs values : List T) (seq : List (Attempt (Option T) E))
    → visit_loop (elements xs ++ seq) values ≡ visit_loop seq (values ++ xs)
unfolding visit_loop
visit_loop-elements [] values seq = ap (visit_loop seq) (sym (append-nil values))
visit_loop-elements (x ∷ xs) values seq =
    visit_loop-elements xs (values ++ x ∷ []) seq
    ∙ ap (visit_loop seq) (append_assoc values (x ∷ []) xs)

-- A `Vec` that was written element by element is read back the same; an error behind some elements is
-- what the whole gives, and without an end there is no value.
pub visit_seq-elements :
    {T E : Type 0} (xs : List T) (e : E) (rest : List (Attempt (Option T) E))
    → (visit_seq (elements xs ++ ok none ∷ rest) ≡ some (ok xs))
      × (visit_seq (elements xs ++ err e ∷ rest) ≡ some (err e))
      × (◌≡◌ {A = Outcome T E} (visit_seq (elements xs)) none)
unfolding visit_seq visit_loop
visit_seq-elements {T} {E} xs e rest = (
  visit_loop-elements xs [] (ok none ∷ rest),
  visit_loop-elements xs [] (err e ∷ rest),
  ap (λ seq. visit_loop seq []) (sym (append-nil (elements xs))) ∙ visit_loop-elements xs [] [],
)
