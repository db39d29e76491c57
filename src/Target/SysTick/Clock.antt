-- ===== src/Target/SysTick/Clock.antt =====
-- `now` of src/target/cortex_m_time.rs tells the time.
use farcri_rs.Prelude.{
  ℕ, zero, suc, ◌+◌, ◌*◌, ◌-◌, ◌/◌, ◌%◌, ◌^◌, ◌≤◌, ◌<◌, Bool, true, false, some, List, ◌∷◌, ◌==◌,
  if◌then◌else◌, ◌≡◌, ◌≢◌, ◌⊎◌, ==_iff, refl, ap, ap₂, sym, ◌∙◌, arith, inl, inr, Bool-cases,
}
use Prim.Native.Nat.{bit_or, bit_xor}
use farcri_rs.Target.SysTick.{reload, Hardware, sys_tick, cycle_after, Turn, joined, cycle_at, now}
use farcri_rs.Target.SysTick.Bits.{shl, bit_xor-ones, bit_or-shl}

-- The timer counts down from `reload` and starts again, and its interrupt is taken at once.
pub record IsSysTick (hw : Hardware) : Type 0 where
  pub counts : (t : ℕ) → hw.interrupts t ≡ t / 2 ^ 24
  pub counts_down : (t : ℕ) → hw.get_current t ≡ reload - t % 2 ^ 24

-- The accesses of a turn follow each other.
pub record IsInOrder (t : Turn) : Type 0 where
  pub first_le : t.first ≤ t.value
  pub value_le : t.value ≤ t.second

cycle_after_lem : (n : ℕ) → cycle_after n ≡ n % 2 ^ 32
unfolding cycle_after sys_tick
cycle_after_lem zero = refl
cycle_after_lem (suc n) = omega (arith, cycle_after_lem n)

shl-mul : (x : ℕ) → shl x 24 ≡ x * 2 ^ 24
shl-mul x = omega arith

joined_lem :
    (t cycle : ℕ)
    → cycle < 2 ^ 32
    → joined (reload - t % 2 ^ 24) cycle ≡ t % 2 ^ 24 + cycle * 2 ^ 24
unfolding joined
joined_lem t cycle h =
    let value = reload - t % 2 ^ 24 in
    let p : bit_xor value 0xffffff ≡ t % 2 ^ 24 =
      bit_xor-ones 24 value (omega arith) ∙ (omega arith) in
    let q : cycle * 2 ^ 24 % 2 ^ 64 ≡ shl cycle 24 = omega (arith, h) in
    ap₂ bit_or p q
    ∙ bit_or-shl 24 (t % 2 ^ 24) cycle (omega arith)
    ∙ ap (λ x. t % 2 ^ 24 + x) (shl-mul cycle)

module _ (hw : Hardware) (law : IsSysTick hw) where
  cycle_at_lem : (t : ℕ) → cycle_at hw t ≡ t / 2 ^ 24 % 2 ^ 32
  cycle_at_lem t = ap cycle_after (law.counts t) ∙ cycle_after_lem (t / 2 ^ 24)

  -- A turn between two wraps gives the time of its access to the timer.
  turn-time :
      (t : Turn)
      → IsInOrder t
      → t.first / 2 ^ 24 ≡ t.second / 2 ^ 24
      → joined (hw.get_current t.value) (cycle_at hw t.first) ≡ t.value % 2 ^ 56
  turn-time t o e =
      let c : t.first / 2 ^ 24 ≡ t.value / 2 ^ 24 = omega (arith, o.first_le, o.value_le, e) in
      ap₂ joined (law.counts_down t.value) (cycle_at_lem t.first ∙ ap (λ x. x % 2 ^ 32) c)
      ∙ joined_lem t.value (t.value / 2 ^ 24 % 2 ^ 32) (omega arith)
      ∙ (omega arith)

  same_cycle : (s t : ℕ) → s / 2 ^ 24 ≡ t / 2 ^ 24 → (cycle_at hw s == cycle_at hw t) ≡ true
  same_cycle s t e =
      (==_iff (cycle_at hw s) (cycle_at hw t)).1
        (cycle_at_lem s ∙ ap (λ x. x % 2 ^ 32) e ∙ sym (cycle_at_lem t))

  now-same :
      (t : Turn) (ts : List Turn)
      → IsInOrder t
      → t.first / 2 ^ 24 ≡ t.second / 2 ^ 24
      → now hw (t ∷ ts) ≡ some (t.value % 2 ^ 56)
  unfolding now
  now-same t ts o e =
      ap
        (λ b. if b then some (joined (hw.get_current t.value) (cycle_at hw t.first)) else now hw ts)
        (same_cycle t.first t.second e)
      ∙ ap some (turn-time t o e)

  -- On a target with a SysTick timer, let two turns follow each other within one period of it. Then
  -- `now` ends with the second turn at the latest, and gives the clock cycles since `init` at the turn's
  -- access to the timer, as a number of 56 bits, whether or not the timer starts again meanwhile.
  pub now-time :
      (t u : Turn) (ts : List Turn)
      → IsInOrder t
      → IsInOrder u
      → t.second ≤ u.first
      → u.second < t.first + 2 ^ 24
      → (now hw (t ∷ u ∷ ts) ≡ some (t.value % 2 ^ 56))
        ⊎ (now hw (t ∷ u ∷ ts) ≡ some (u.value % 2 ^ 56))
  unfolding now
  now-time t u ts o p between h = elim (Bool-cases (cycle_at hw t.first == cycle_at hw t.second)) [
    | inl e ↦
        let c = (==_iff (cycle_at hw t.first) (cycle_at hw t.second)).0 e in
        let same : t.first / 2 ^ 24 ≡ t.second / 2 ^ 24 = omega (
          arith,
          cycle_at_lem t.first,
          cycle_at_lem t.second,
          c,
          o.first_le,
          o.value_le,
          p.first_le,
          p.value_le,
        ) in
        inl (now-same t (u ∷ ts) o same)
    | inr e ↦
        let wrapped : t.first / 2 ^ 24 ≢ t.second / 2 ^ 24 =
          λ q. distinct (sym (same_cycle t.first t.second q) ∙ e) in
        let same : u.first / 2 ^ 24 ≡ u.second / 2 ^ 24 =
          omega (arith, wrapped, o.first_le, o.value_le, p.first_le, p.value_le) in
        inr (
          ap
            (λ b.
              if b
              then some (joined (hw.get_current t.value) (cycle_at hw t.first))
              else now hw (u ∷ ts))
            e
          ∙ now-same u ts p same)
  ]
    where
      distinct : ◌≡◌ {A = Bool} true false → ⊥
      distinct x = cc
