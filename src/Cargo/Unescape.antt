-- ===== src/Cargo/Unescape.antt =====
-- `json_unescape` of src/cargo.rs undoes the escapes of JSON.
use farcri_rs.Prelude.{
  ℕ, true, false, Option, none, some, [], ◌∷◌, ◌++◌, ◌+◌, ◌-◌, ◌/◌, ◌%◌, Bool, ◌&&◌, ◌||◌, ltb,
  ◌==◌, if◌then◌else◌, Bytes, ◌≡◌, refl, sym, ap, ◌∙◌, inl, inr, Bool-cases, append-nil,
  append_assoc, ==_iff,
}
use farcri_rs.Cargo.{backslash, split, unescape_char, unescaped, unescape_parts, json_unescape}

-- The letter with which JSON escapes a byte, if it does so.
unfoldable pub escape_letter : ℕ → Option ℕ
escape_letter c =
    if c == b'"'
    then some b'"'
    else if c == backslash
    then some backslash
    else if c == 0x8
    then some b'b'
    else if c == 0xc
    then some b'f'
    else if c == 0xa
    then some b'n'
    else if c == 0xd
    then some b'r'
    else if c == 0x9
    then some b't'
    else none

abbrev pub escaped : ℕ → Option ℕ → Bytes → Bytes
escaped c none rest = c ∷ rest
escaped c (some l) rest = backslash ∷ l ∷ rest

-- A control character without a letter, which JSON writes by its code.
unfoldable pub needs_code : ℕ → Bool
unfolding escape_letter
needs_code c = ltb c 0x20 && elim (escape_letter c) [ none ↦ true | some l ↦ false ]

unfoldable pub has_code : Bytes → Bool
unfolding needs_code
has_code [] = false
has_code (c ∷ cs) = needs_code c || has_code cs

abbrev hex_digit : ℕ → ℕ
hex_digit n = if ltb n 10 then b'0' + n else b'a' + (n - 10)

unfoldable pub json_escape : Bytes → Bytes
unfolding needs_code
json_escape [] = []
json_escape (c ∷ cs) =
    let rest = json_escape cs in
    if needs_code c
    then backslash ∷ b'u' ∷ b'0' ∷ b'0' ∷ hex_digit (c / 16) ∷ hex_digit (c % 16) ∷ rest
    else escaped c (escape_letter c) rest

-- How a byte is escaped, and back.
data Escape (c : ℕ) : Type 0 where
  as_itself : escape_letter c ≡ none → (c == backslash) ≡ false → Escape c
  doubled : escape_letter c ≡ some backslash → c ≡ backslash → Escape c
  by_letter :
      (l : ℕ)
      (rest : (escape_letter c ≡ some l) × (unescape_char l ≡ some c) × ((l == backslash) ≡ false))
      → Escape c

eq_of_test : (a b : ℕ) → (a == b) ≡ true → some b ≡ some a
eq_of_test a b e = ap some (sym ((==_iff a b).0 e))

Escape-cases : (c : ℕ) → Escape c
unfolding escape_letter
Escape-cases c = elim (Bool-cases (c == b'"')) [
  | inl e ↦ by_letter b'"' (rw e refl, eq_of_test c b'"' e, refl)
  | inr e1 ↦ elim (Bool-cases (c == backslash)) [
    | inl e ↦ doubled (rw (e1, e) refl) ((==_iff c backslash).0 e)
    | inr e2 ↦ elim (Bool-cases (c == 0x8)) [
      | inl e ↦ by_letter b'b' (rw (e1, e2, e) refl, eq_of_test c 0x8 e, refl)
      | inr e3 ↦ elim (Bool-cases (c == 0xc)) [
        | inl e ↦ by_letter b'f' (rw (e1, e2, e3, e) refl, eq_of_test c 0xc e, refl)
        | inr e4 ↦ elim (Bool-cases (c == 0xa)) [
          | inl e ↦ by_letter b'n' (rw (e1, e2, e3, e4, e) refl, eq_of_test c 0xa e, refl)
          | inr e5 ↦ elim (Bool-cases (c == 0xd)) [
            | inl e ↦ by_letter b'r' (rw (e1, e2, e3, e4, e5, e) refl, eq_of_test c 0xd e, refl)
            | inr e6 ↦ elim (Bool-cases (c == 0x9)) [
              | inl e ↦
                  by_letter b't' (rw (e1, e2, e3, e4, e5, e6, e) refl, eq_of_test c 0x9 e, refl)
              | inr e7 ↦ as_itself (rw (e1, e2, e3, e4, e5, e6, e7) refl) e2
            ]
          ]
        ]
      ]
    ]
  ]
]

-- The loop over the parts of an escaped text, behind what was written before.
abbrev Unescapes : Bytes → Bytes → Option Bytes → Type 0
Unescapes out escaped result = unescape_parts (out ++ (split escaped).0) (split escaped).1 ≡ result

snoc-append : (out : Bytes) (c : ℕ) (xs : Bytes) → (out ++ (c ∷ [])) ++ xs ≡ out ++ (c ∷ xs)
snoc-append out c xs = append_assoc out (c ∷ []) xs

behind :
    (c : ℕ) (out rest : Bytes) (result : Option Bytes)
    → Unescapes (out ++ (c ∷ [])) rest result
    → unescape_parts ((out ++ []) ++ (c ∷ (split rest).0)) (split rest).1 ≡ result
behind c out rest result h =
    let go = λ (o : Bytes). unescape_parts o (split rest).1 in
    ap (λ o. go (o ++ (c ∷ (split rest).0))) (append-nil out)
    ∙ ap go (sym (snoc-append out c (split rest).0))
    ∙ h

escaped-Unescapes :
    (c : ℕ) (out rest : Bytes) (result : Option Bytes)
    → Escape c
    → Unescapes (out ++ (c ∷ [])) rest result
    → Unescapes out (escaped c (escape_letter c) rest) result
unfolding split unescape_parts unescaped
escaped-Unescapes c out rest result (as_itself e other) h =
    rw (e, other)
      (ap (λ o. unescape_parts o (split rest).1) (sym (snoc-append out c (split rest).0)) ∙ h)
escaped-Unescapes c out rest result (doubled e same) h = rw e (
    ap (λ b. unescape_parts ((out ++ []) ++ (b ∷ (split rest).0)) (split rest).1) (sym same)
    ∙ behind c out rest result h)
escaped-Unescapes c out rest result (by_letter l (e, back, other)) h =
    rw (e, other)
      (ap (λ o. unescaped o (split rest).0 (out ++ []) (λ out'. unescape_parts out' (split rest).1))
          back
        ∙ behind c out rest result h)

-- A code is not read.
code-Unescapes : (out rest : Bytes) → Unescapes out (backslash ∷ b'u' ∷ rest) none
unfolding split unescape_parts unescaped
code-Unescapes out rest = refl

text-Unescapes :
    (text out : Bytes)
    → Unescapes out (json_escape text) (if has_code text then none else some (out ++ text))
unfolding json_escape has_code split unescape_parts
text-Unescapes [] out = refl
text-Unescapes (c ∷ cs) out = elim (Bool-cases (needs_code c)) [
  | inl code ↦
      rw code (
        code-Unescapes out (b'0' ∷ b'0' ∷ hex_digit (c / 16) ∷ hex_digit (c % 16) ∷ json_escape cs))
  | inr letter ↦ rw letter (
      escaped-Unescapes c out (json_escape cs) _ (Escape-cases c) (
        text-Unescapes cs (out ++ (c ∷ []))
        ∙ ap (λ t. if has_code cs then none else some t) (snoc-append out c cs)))
]

-- A text comes back from its escaped form, unless it has a control character for which JSON has no letter:
-- its code is a panic.
pub json_unescape-escape :
    (text : Bytes) → json_unescape (json_escape text) ≡ (if has_code text then none else some text)
unfolding json_unescape
json_unescape-escape text = text-Unescapes text []
