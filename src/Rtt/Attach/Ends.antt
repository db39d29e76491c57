-- ===== src/Rtt/Attach/Ends.antt =====
-- `attach_rtt` and `program_and_get_output` of src/proxy/targets/probe_rs.rs come to an end: what they
-- give, behind which calls of the session.
use farcri_rs.Prelude.{
  ℕ, zero, suc, ◌+◌, ◌*◌, ◌<◌, ◌≤◌, false, Option, none, Bytes, ltb, ltb→lt, ◌==◌, ◌≡◌, refl, sym,
  ap, subst, arith, ◌⊎◌, inl, inr, Bool-cases,
}
use farcri_rs.Futures.{Attempt, ok, err}
use farcri_rs.Rtt.{Channels}
use farcri_rs.Rtt.Polls.{new}
use farcri_rs.Rtt.Attach.{
  RttError, control_block_not_found, other_error, ScanRegion, Session, Elf, poll_interval,
  rtt_attach_timeout, attach_rtt_error, halt_core, timeout, Attached, attached, refused,
  out_of_fuel, then_call, with_halt_guard, attempted, attach_turn, turned, attach_loop,
  attach_turns, attach_rtt, rtt_scan_region, Run, streams, failed, still_attaching, flash,
  reset_error, attach_error, streamed, or_failed, program_and_get_output,
}

-- The clock advances by the delay behind each turn.
abbrev pub Delays : (ℕ → ℕ) → Type 0
Delays elapsed = (n : ℕ) → elapsed n + poll_interval ≤ elapsed (suc n)

module _ {S R : Type 0} (se : Session S R) (ch : Channels R) (region : ScanRegion)
    (elapsed : ℕ → ℕ) where
  -- An attempt that found no control block, or one that lacks the channels of a direction.
  abbrev pub NotYet : Attempt R RttError → Type 0
  NotYet (ok r) = (ch.up_channels r ≡ 0) ⊎ (ch.down_channels r ≡ 0)
  NotYet (err control_block_not_found) = Unit {0}
  NotYet (err (other_error e)) = ⊥

  -- From a state of the session to another by so many attempts, from the `n`-th on, of which none was
  -- enough and behind none of which the time had run out.
  abbrev pub Waits : ℕ → ℕ → S → S → Type 0
  Waits zero n s s' = s ≡ s'
  Waits (suc k) n s s' =
      NotYet (se.attach_region region s).0
      × (elapsed n ≤ rtt_attach_timeout)
      × Waits k (suc n) (se.attach_region region s).1 s'

  -- What attaching comes to, and the state of the session then: behind some attempts in vain, the next gives
  -- a control block with channels both ways, or an error, or is in vain again and too late.
  abbrev pub Comes : ℕ → S → Attached R × S → Type 0
  Comes n s (attached r, t) =
      (k : ℕ) × (s' : S) × Waits k n s s'
      × (se.attach_region region s' ≡ (ok r, t))
      × (0 < ch.up_channels r)
      × (0 < ch.down_channels r)
  Comes n s (refused (attach_rtt_error (other_error e)), t) =
      (k : ℕ) × (s' : S) × Waits k n s s' × (se.attach_region region s' ≡ (err (other_error e), t))
  Comes n s (refused timeout, t) =
      (k : ℕ) × (s' : S) × Waits k n s s'
      × NotYet (se.attach_region region s').0
      × ((se.attach_region region s').1 ≡ t)
      × (rtt_attach_timeout < elapsed (n + k))
  Comes n s (refused (attach_rtt_error control_block_not_found), t) = ⊥
  Comes n s (refused (halt_core e), t) = ⊥
  Comes n s (out_of_fuel, t) = ⊥

  Comes-later :
      (n : ℕ) (s t : S) (x : Attached R × S)
      → NotYet (se.attach_region region s).0
      → elapsed n ≤ rtt_attach_timeout
      → (se.attach_region region s).1 ≡ t
      → Comes (suc n) t x
      → Comes n s x
  Comes-later n s t (attached r, u) v l e (k, s', w, q, a, b) =
      (suc k, s', (v, l, subst (λ z. Waits k (suc n) z s') (sym e) w), q, a, b)
  Comes-later n s t (refused (attach_rtt_error (other_error x)), u) v l e (k, s', w, q) =
      (suc k, s', (v, l, subst (λ z. Waits k (suc n) z s') (sym e) w), q)
  Comes-later n s t (refused timeout, u) v l e (k, s', w, q, a, late) = (
    suc k,
    s',
    (v, l, subst (λ z. Waits k (suc n) z s') (sym e) w),
    q,
    a,
    (let same : suc n + k ≡ n + suc k = omega arith in
        subst (λ m. rtt_attach_timeout < elapsed m) same late),
  )
  Comes-later n s t (refused (attach_rtt_error control_block_not_found), u) v l e h = h
  Comes-later n s t (refused (halt_core x), u) v l e h = h
  Comes-later n s t (out_of_fuel, u) v l e h = h

  -- Behind an attempt that was not enough.
  in_vain-Comes :
      (n : ℕ) (s t : S) (next : S → Attached R × S)
      → NotYet (se.attach_region region s).0
      → (se.attach_region region s).1 ≡ t
      → (elapsed n ≤ rtt_attach_timeout → Comes (suc n) t (next t))
      → Comes n s (turned se (ok none, t) (elapsed n) next)
  unfolding turned
  in_vain-Comes n s t next v e k = elim (Bool-cases (ltb rtt_attach_timeout (elapsed n))) [
    | inl late ↦
        let same : n ≡ n + 0 = omega arith in
        rw late (
          0,
          s,
          refl,
          v,
          e,
          subst (λ m. rtt_attach_timeout < elapsed m) same
              (ltb→lt rtt_attach_timeout (elapsed n) late),
        )
    | inr early ↦
        let l : elapsed n ≤ rtt_attach_timeout = ground arith in
        rw early (Comes-later n s t (next t) v l e (k l))
  ]

  attempted-Comes :
      (n : ℕ) (s : S) (o : Attempt R RttError × S) (next : S → Attached R × S)
      → se.attach_region region s ≡ o
      → (elapsed n ≤ rtt_attach_timeout → (t : S) → Comes (suc n) t (next t))
      → Comes n s (turned se (attempted se ch o) (elapsed n) next)
  unfolding attempted turned
  attempted-Comes n s (ok r, t) next q k = elim (Bool-cases (ch.up_channels r == 0)) [
    | inl e ↦
        let no_up : ch.up_channels r ≡ 0 = ground arith in
        rw e (
          in_vain-Comes n s t next (subst (λ o. NotYet o.0) (sym q) (inl no_up)) (ap (λ o. o.1) q)
            (λ l. k l t))
    | inr up ↦ elim (Bool-cases (ch.down_channels r == 0)) [
      | inl e ↦
          let no_down : ch.down_channels r ≡ 0 = ground arith in
          rw (up, e)
            (in_vain-Comes n s t next (subst (λ o. NotYet o.0) (sym q) (inr no_down))
              (ap (λ o. o.1) q) (λ l. k l t))
      | inr down ↦ rw (up, down) (0, s, refl, q, ground arith, ground arith)
    ]
  ]
  attempted-Comes n s (err control_block_not_found, t) next q k =
      in_vain-Comes n s t next (subst (λ o. NotYet o.0) (sym q) tt) (ap (λ o. o.1) q) (λ l. k l t)
  attempted-Comes n s (err (other_error e), t) next q k = (0, s, refl, q)

  attach_loop-Comes :
      Delays elapsed
      → (fuel n : ℕ) (s : S) → attach_turns ≤ fuel + n
      → poll_interval * n ≤ elapsed n
      → n ≤ 17
      → Comes n s (attach_loop se ch (record { halt_on_access = false }) region elapsed fuel n s)
  unfolding attach_loop attach_turn with_halt_guard
  attach_loop-Comes d zero n s f t m = absurd (omega arith)
  attach_loop-Comes d (suc fuel) n s f t m =
      attempted-Comes n s (se.attach_region region s)
        (attach_loop se ch (record { halt_on_access = false }) region elapsed fuel (suc n)) refl
        (λ early s'.
          attach_loop-Comes d fuel (suc n) s' (omega arith) (omega (arith, t, d n))
            (omega (arith, t, early)))

module _ {S R : Type 0} (se : Session S R) (ch : Channels R) where
  -- From a state of the session to another by flashing, and the reset of the core, all of which succeed.
  abbrev pub Starts : Bytes → S → S → Type 0
  Starts path s s' =
      (a : S) × (b : S) × (se.download_file path s ≡ (ok tt, a))
      × (se.core a ≡ (ok tt, b))
      × (se.reset b ≡ (ok tt, s'))

  -- What running an executable comes to, and the state of the session then: the calls that are named, in
  -- their order, and no others.
  abbrev pub RunsFrom : Bytes → ScanRegion → (ℕ → ℕ) → S → Run se × S → Type 0
  RunsFrom path region elapsed s (streams w, t) =
      (r : R) × (s' : S) × (w ≡ new r)
      × Starts path s s'
      × Comes se ch region elapsed 0 s' (attached r, t)
  RunsFrom path region elapsed s (failed (flash e), t) = se.download_file path s ≡ (err e, t)
  RunsFrom path region elapsed s (failed (reset_error e), t) =
      (a : S) × (se.download_file path s ≡ (ok tt, a))
      × ((se.core a ≡ (err e, t))
          ⊎ ((b : S) × (se.core a ≡ (ok tt, b)) × (se.reset b ≡ (err e, t))))
  RunsFrom path region elapsed s (failed (attach_error e), t) =
      (s' : S) × Starts path s s' × Comes se ch region elapsed 0 s' (refused e, t)
  RunsFrom path region elapsed s (still_attaching, t) = ⊥

  module _ (path : Bytes) (region : ScanRegion) (elapsed : ℕ → ℕ) (s : S) where
    streamed-RunsFrom :
        (s' : S) (o : Attached R × S)
        → Starts path s s'
        → Comes se ch region elapsed 0 s' o
        → RunsFrom path region elapsed s (streamed se o)
    unfolding streamed
    streamed-RunsFrom s' (attached r, t) st h = (r, s', refl, st, h)
    streamed-RunsFrom s' (refused e, t) st h = (s', st, h)
    streamed-RunsFrom s' (out_of_fuel, t) st h = h

    reset-RunsFrom :
        (a b : S) (o : Attempt Unit ℕ × S) (next : S → Run se × S)
        → se.download_file path s ≡ (ok tt, a)
        → se.core a ≡ (ok tt, b)
        → se.reset b ≡ o
        → ((s' : S) → Starts path s s' → RunsFrom path region elapsed s (next s'))
        → RunsFrom path region elapsed s (or_failed se o reset_error next)
    unfolding or_failed
    reset-RunsFrom a b (ok u, s') next p q r k = k s' (a, b, p, q, r)
    reset-RunsFrom a b (err e, t) next p q r k = (a, p, inr (b, q, r))

    core-RunsFrom :
        (a : S) (o : Attempt Unit ℕ × S) (next : S → Run se × S)
        → se.download_file path s ≡ (ok tt, a)
        → se.core a ≡ o
        → ((s' : S) → Starts path s s' → RunsFrom path region elapsed s (next s'))
        → RunsFrom path region elapsed s (or_failed se (then_call se o se.reset) reset_error next)
    unfolding then_call or_failed
    core-RunsFrom a (ok u, b) next p q k = reset-RunsFrom a b (se.reset b) next p q refl k
    core-RunsFrom a (err e, t) next p q k = (a, p, inl q)

    downloaded-RunsFrom :
        (o : Attempt Unit ℕ × S) (next : S → Run se × S)
        → se.download_file path s ≡ o
        → ((s' : S) → Starts path s s' → RunsFrom path region elapsed s (next s'))
        → RunsFrom path region elapsed s (
            or_failed se o flash
              (λ a. or_failed se (then_call se (se.core a) se.reset) reset_error next))
    unfolding or_failed
    downloaded-RunsFrom (ok u, a) next p k = core-RunsFrom a (se.core a) next p refl k
    downloaded-RunsFrom (err e, t) next p k = p

  -- With a clock that the delay behind each turn advances, `program_and_get_output` comes to an end, and
  -- calls the session just to flash, to reset the core, and then for one attempt to attach after the
  -- other. It stops at the first of these calls that fails, with its error; but an attempt that finds no
  -- control block, or one without channels in both directions, is followed by another until the time has
  -- run out, and that is the timeout. The stream that it gives is new, over the channels of the first
  -- attempt that finds them in both directions.
  pub program_and_get_output-RunsFrom :
      (parse : Bytes → Option Elf) (path : Bytes) (elf_bytes : Option Bytes) (elapsed : ℕ → ℕ)
      (s : S)
      → Delays elapsed
      → RunsFrom path
          (rtt_scan_region parse elf_bytes)
          elapsed
          s
          (program_and_get_output se parse ch path elf_bytes elapsed s)
  unfolding program_and_get_output attach_rtt
  program_and_get_output-RunsFrom parse path elf_bytes elapsed s d =
      let region = rtt_scan_region parse elf_bytes in
      downloaded-RunsFrom path region elapsed s (se.download_file path s) _ refl (λ s' st.
        streamed-RunsFrom path region elapsed s s' _ st (
          attach_loop-Comes se ch region elapsed d attach_turns 0 s' (omega arith) (omega arith)
            (omega arith)))
