-- ===== src/Rtt/Attach/Symbol.antt =====
-- Which symbol `find_rtt_symbol` of src/proxy/targets/probe_rs.rs finds.
use farcri_rs.Prelude.{
  ℕ, sym, Bool, true, false, Option, none, some, List, [], ◌∷◌, ◌++◌, codes, Bytes, ◌≡◌, ◌≢◌, refl,
  ap, ◌∙◌, inl, inr, Bool-cases, equal_iff,
}
use farcri_rs.Futures.{Attempt, ok, err}
use farcri_rs.Rtt.Attach.{Sym, Elf, is_rtt_name, find_in_syms, find_rtt_symbol}

abbrev pub rtt_name : Option (Attempt Bytes ℕ)
rtt_name = some (ok (codes "_SEGGER_RTT"))

-- No symbol of the list has the name.
abbrev pub NoneNamed : (ℕ → Option (Attempt Bytes ℕ)) → List Sym → Type 0
NoneNamed strtab [] = Unit {0}
NoneNamed strtab (sym ∷ syms) = (strtab sym.st_name ≢ rtt_name) × NoneNamed strtab syms

-- The value is that of the first symbol with the name.
abbrev pub IsFirst : Elf → Option ℕ → Type 0
IsFirst elf none = NoneNamed elf.strtab elf.syms
IsFirst elf (some value) =
    (before : List Sym) × (sym : Sym) × (behind : List Sym) × (elf.syms ≡ before ++ sym ∷ behind)
    × NoneNamed elf.strtab before
    × (elf.strtab sym.st_name ≡ rtt_name)
    × (value ≡ sym.st_value)

named : (o : Option (Attempt Bytes ℕ)) → is_rtt_name o ≡ true → o ≡ rtt_name
named none e = cc
named (some (err x)) e = cc
named (some (ok name)) e = ap (λ n. some (ok n)) ((equal_iff name (codes "_SEGGER_RTT")).0 e)

not_named : (o : Option (Attempt Bytes ℕ)) → is_rtt_name o ≡ false → o ≢ rtt_name
not_named o e q = elim (distinct (sym (ap is_rtt_name q) ∙ e)) [ ]
  where
    distinct : ◌≡◌ {A = Bool} true false → ⊥
    distinct h = cc

abbrev IsFirstIn : (ℕ → Option (Attempt Bytes ℕ)) → List Sym → Option ℕ → Type 0
IsFirstIn strtab syms o = IsFirst (record { syms = syms; strtab = strtab }) o

behind_one :
    (strtab : ℕ → Option (Attempt Bytes ℕ)) (s : Sym) (syms : List Sym) (o : Option ℕ)
    → strtab s.st_name ≢ rtt_name
    → IsFirstIn strtab syms o
    → IsFirstIn strtab (s ∷ syms) o
behind_one strtab s syms none n h = (n, h)
behind_one strtab s syms (some v) n (before, x, behind, e, nn, y, q) =
    (s ∷ before, x, behind, ap (◌∷◌ s) e, (n, nn), y, q)

find_in_syms-IsFirst :
    (strtab : ℕ → Option (Attempt Bytes ℕ)) (syms : List Sym)
    → IsFirstIn strtab syms (find_in_syms strtab syms)
unfolding find_in_syms
find_in_syms-IsFirst strtab [] = tt
find_in_syms-IsFirst strtab (s ∷ syms) = elim (Bool-cases (is_rtt_name (strtab s.st_name))) [
  | inl e ↦ rw e ([], s, syms, refl, tt, named (strtab s.st_name) e, refl)
  | inr e ↦ rw e (
      behind_one strtab s syms (find_in_syms strtab syms) (not_named (strtab s.st_name) e)
        (find_in_syms-IsFirst strtab syms))
]

-- `find_rtt_symbol` gives the value of the first symbol named `_SEGGER_RTT`, and nothing only if no
-- symbol has that name.
pub find_rtt_symbol-IsFirst : (elf : Elf) → IsFirst elf (find_rtt_symbol (some elf))
unfolding find_rtt_symbol
find_rtt_symbol-IsFirst elf = find_in_syms-IsFirst elf.strtab elf.syms
