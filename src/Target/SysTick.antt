-- ===== src/Target/SysTick.antt =====
-- The clock of a target with a SysTick timer, src/target/cortex_m_time.rs: the handler of its interrupt
-- counts its periods, and `now` joins that count and the timer's value.
pub mod Bits
pub mod Clock
use Prim.Native.Nat.{bit_or, bit_xor}
use farcri_rs.Prelude.{
  ℕ, zero, suc, ◌+◌, ◌*◌, ◌%◌, ◌^◌, Option, none, some, List, [], ◌∷◌, ◌==◌, if◌then◌else◌,
}

-- `syst.set_reload(0xffffff)`
abbrev pub reload : ℕ
reload = 0xffffff

-- `SysTick`, on the value of CYCLE, a `usize` of 32 bits.
unfoldable pub sys_tick : ℕ → ℕ
sys_tick cycle = (cycle + 1) % 2 ^ 32

-- The hardware, by the clock cycles since `init`: how many interrupts it has taken, and the value of
-- the timer.
pub record Hardware : Type 0 where
  pub interrupts : ℕ → ℕ
  pub get_current : ℕ → ℕ

-- CYCLE after some interrupts.
unfoldable pub cycle_after : ℕ → ℕ
unfolding sys_tick
cycle_after zero = 0
cycle_after (suc n) = sys_tick (cycle_after n)

-- The points of time of the three accesses of a turn.
pub record Turn : Type 0 where
  pub first : ℕ
  pub value : ℕ
  pub second : ℕ

-- `(value as u64 ^ 0xffffff) | ((cycle as u64) << 24)`
unfoldable pub joined : ℕ → ℕ → ℕ
joined value cycle = bit_or (bit_xor value 0xffffff) (cycle * 2 ^ 24 % 2 ^ 64)

module _ (hw : Hardware) where
  abbrev pub cycle_at : ℕ → ℕ
  cycle_at t = cycle_after (hw.interrupts t)

  -- The loop of `now` over the turns; `none` if it goes on behind them.
  unfoldable pub now : List Turn → Option ℕ
  unfolding joined cycle_after
  now [] = none
  now (t ∷ ts) =
      let rest = now ts in
      if cycle_at t.first == cycle_at t.second
      then some (joined (hw.get_current t.value) (cycle_at t.first))
      else rest
