-- ===== src/Rtt/Attach/Halts.antt =====
-- Whether `CoreHaltGuard` and `attach_rtt` of src/proxy/targets/probe_rs.rs leave the core running.
use farcri_rs.Prelude.{ℕ, Bool, true, false, ◌≡◌, ◌⊎◌, refl, ◌∙◌, inl, inr}
use farcri_rs.Futures.{Attempt, ok, err}
use farcri_rs.Rtt.Attach.{
  ScanRegion, Session, then_call, guard_new, guard_drop, dropped, guarded, with_halt_guard,
}

-- What the crate promises of the core: that a run that succeeds makes it run, and that nothing but a halt
-- that succeeds stops it. Any call may fail; `Failed` says of a state that a call of `core` or `run` has
-- failed on the way to it.
pub record IsSession {S R : Type 0} (se : Session S R) (halted : S → Bool) (Failed : S → Type 0)
    : Type 0 where
  pub core_keeps : (s : S) → halted (se.core s).1 ≡ halted s
  pub core_fails : (s : S) (e : ℕ) → (se.core s).0 ≡ err e → Failed (se.core s).1
  pub core_after : (s : S) → Failed s → Failed (se.core s).1
  pub runs : (s : S) → (se.run s).0 ≡ ok tt → halted (se.run s).1 ≡ false
  pub run_fails : (s : S) (e : ℕ) → (se.run s).0 ≡ err e → Failed (se.run s).1
  pub halt_fails : (s : S) (e : ℕ) → (se.halt s).0 ≡ err e → halted (se.halt s).1 ≡ halted s
  pub halt_after : (s : S) → Failed s → Failed (se.halt s).1
  pub attach_keeps : (region : ScanRegion) (s : S) → halted (se.attach_region region s).1 ≡ halted s
  pub attach_after : (region : ScanRegion) (s : S) → Failed s → Failed (se.attach_region region s).1

module _ {S R : Type 0} (se : Session S R) (halted : S → Bool) (Failed : S → Type 0)
    (law : IsSession se halted Failed) where
  -- The core runs, unless a call of `core` or `run` has failed.
  abbrev pub Runs : S → Type 0
  Runs s = (halted s ≡ false) ⊎ Failed s

  Runs-keeps : (s t : S) → halted t ≡ halted s → (Failed s → Failed t) → Runs s → Runs t
  Runs-keeps s t e k (inl h) = inl (e ∙ h)
  Runs-keeps s t e k (inr f) = inr (k f)

  run-Runs : (s : S) (a : Attempt Unit ℕ) → (se.run s).0 ≡ a → Runs (se.run s).1
  run-Runs s (ok u) e = inl (law.runs s e)
  run-Runs s (err x) e = inr (law.run_fails s x e)

  then_run :
      (o : Attempt Unit ℕ × S)
      → ((e : ℕ) → o.0 ≡ err e → Failed o.1)
      → Runs (then_call se o se.run).1
  unfolding then_call
  then_run (ok u, s) h = run-Runs s (se.run s).0 refl
  then_run (err x, s) h = inr (h x refl)

  -- Whatever the state, behind the guard the core runs, unless the restart has failed.
  guard_drop-Runs : (s : S) → Runs (guard_drop se s)
  unfolding guard_drop
  guard_drop-Runs s = then_run (se.core s) (law.core_fails s)

  then_halt :
      (o : Attempt Unit ℕ × S) (e : ℕ)
      → Runs o.1
      → (then_call se o se.halt).0 ≡ err e
      → Runs (then_call se o se.halt).1
  unfolding then_call
  then_halt (ok u, s) e h q = Runs-keeps s _ (law.halt_fails s e q) (law.halt_after s) h
  then_halt (err x, s) e h q = h

  dropped-Runs : {A : Type 0} (o : A × S) → Runs (dropped se o).1
  unfolding dropped
  dropped-Runs (a, s) = guard_drop-Runs s

  guarded-Runs :
      {A E : Type 0} (g : Attempt Unit ℕ × S) (wrap : ℕ → E) (access : S → Attempt A E × S)
      → ((e : ℕ) → g.0 ≡ err e → Runs g.1)
      → Runs (guarded se g wrap access).1
  unfolding guarded
  guarded-Runs (ok u, s) wrap access h = dropped-Runs (access s)
  guarded-Runs (err e, s) wrap access h = h e refl

  -- Whatever an access does, if it leaves a running core running, then behind the guard the core runs.
  pub with_halt_guard-Runs :
      {A E : Type 0} (b : Bool) (wrap : ℕ → E) (access : S → Attempt A E × S) (s : S)
      → ((s : S) → Runs s → Runs (access s).1)
      → Runs s
      → Runs (with_halt_guard se b wrap access s).1
  unfolding with_halt_guard guard_new
  with_halt_guard-Runs true wrap access s k h =
      guarded-Runs (guard_new se s) wrap access
        (λ e q. then_halt (se.core s) e (Runs-keeps s _ (law.core_keeps s) (law.core_after s) h) q)
  with_halt_guard-Runs false wrap access s k h = k s h
