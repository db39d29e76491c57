-- ===== src/Bencher/WarmUp.antt =====
-- `Function::warm_up` of src/bencher/func.rs ends when the time on the host has advanced enough.
use farcri_rs.Prelude.{
  ℕ, zero, suc, ◌+◌, ◌-◌, ◌*◌, ◌%◌, ◌≤◌, ◌<◌, true, false, List, [], ◌∷◌, ◌++◌, length, drop, ltb,
  ltb→lt, ◌≡◌, refl, sym, subst, ◌∙◌, arith, inl, inr, Bool-cases,
}
use farcri_rs.Time.{u64_mod, Duration, add_u64, sub_u64, since}
use farcri_rs.Protocol.{DownstreamMessage, instant, get_instant}
use farcri_rs.Target.{Target, Outcome, done, now, value, send, recv, receive, expect_instant}
use farcri_rs.Bencher.{
  Bencher, Closure, iter, now_if, elapsed_since, run_routine, call_iter, call, calls,
  assert_iterated, invoke, warm_up_loop, warm_up,
}

-- The points of time that the host replies with, two for each call of the closure.
abbrev pub replies : List (ℕ × ℕ) → List DownstreamMessage → List DownstreamMessage
replies [] rest = rest
replies ((x, y) ∷ ps) rest = instant x ∷ instant y ∷ replies ps rest

-- The time that the first `n` calls took.
abbrev pub elapsed : ℕ → List (ℕ × ℕ) → ℕ
elapsed zero ps = 0
elapsed (suc n) [] = 0
elapsed (suc n) ((x, y) ∷ ps) = (y - x) + elapsed n ps

-- The time does not go back, and is a `u64`.
abbrev pub Advance : List (ℕ × ℕ) → Type 0
Advance [] = Unit {0}
Advance ((x, y) ∷ ps) = (x ≤ y) × (y < u64_mod) × Advance ps

abbrev pub pow2 : ℕ → ℕ
pow2 zero = 1
pow2 (suc n) = pow2 n * 2

pow2_pos : (n : ℕ) → 1 ≤ pow2 n
pow2_pos zero = omega arith
pow2_pos (suc n) = omega (arith, pow2_pos n)

-- The target behind a call.
abbrev called : ℕ → List DownstreamMessage → Target → Target
called k rest t = record t {
  sent = (t.sent ++ get_instant ∷ []) ++ get_instant ∷ [];
  incoming = rest;
  reads = suc (suc t.reads);
  invocations = suc t.invocations;
  executions = t.executions + k;
}

invoke-timed :
    (f : Closure) (b : Bencher) (t : Target) (x y : ℕ) (rest : List DownstreamMessage)
    → ((i : ℕ) → f i ≡ iter ∷ [])
    → b.wants_elapsed_time ≡ true
    → t.incoming ≡ instant x ∷ instant y ∷ rest
    → invoke f b t
      ≡ done
          (record b {
            iterated = false;
            value = sub_u64 (t.now (suc t.reads)) (t.now t.reads);
            elapsed_time = since y x;
          })
          (called b.iters rest t)
unfolding invoke calls call call_iter assert_iterated now_if elapsed_since run_routine value now
    send recv receive expect_instant
invoke-timed f b t x y rest h w e = rw (h t.invocations, w, e) refl

since_lem : (x y : ℕ) → x ≤ y → y < u64_mod → since y x ≡ y - x
since_lem x y h k = unfold sub_u64 in omega (arith, h, k)

add_lem : (e d s : ℕ) → s ≡ d → e + d < u64_mod → add_u64 e s ≡ e + d
add_lem e d s q h = unfold add_u64 in omega (arith, q, h)

add_iters :
    (n total iters : ℕ)
    → iters ≡ pow2 n % u64_mod
    → total ≡ (pow2 n - 1) % u64_mod
    → add_u64 total iters ≡ (pow2 (suc n) - 1) % u64_mod
add_iters n total iters h k = unfold add_u64 in omega (arith, h, k, pow2_pos n)

-- The loop ended with the call behind `short` calls, the first with which the time is more than `how_long`.
pub record EndsAfter (how_long : Duration) (ps : List (ℕ × ℕ)) (rest : List DownstreamMessage)
    (e n : ℕ) (o : Outcome (Duration × ℕ)) : Type 0 where
  pub short : ℕ
  pub target : Target
  pub returns : o ≡ done (e + elapsed (suc short) ps, (pow2 (n + suc short) - 1) % u64_mod) target
  pub enough : how_long < e + elapsed (suc short) ps
  pub not_before : e + elapsed short ps ≤ how_long
  pub left : target.incoming ≡ replies (drop (suc short) ps) rest

module _ (f : Closure) (iters : (i : ℕ) → f i ≡ iter ∷ []) (how_long : Duration)
    (rest : List DownstreamMessage) where
  loop_now :
      (n e x y : ℕ) (ps : List (ℕ × ℕ)) (t : Target) (o : Outcome (Duration × ℕ))
      → t.incoming ≡ replies ps rest
      → e ≤ how_long
      → how_long < e + (y - x)
      → o ≡ done (e + (y - x), (pow2 (suc n) - 1) % u64_mod) t
      → EndsAfter how_long ((x, y) ∷ ps) rest e n o
  loop_now n e x y ps t o inc le lt q =
      let p : y - x ≡ y - x + elapsed 0 ps = omega arith in
      let m : suc n ≡ n + 1 = omega arith in
      record {
        short = 0;
        target = t;
        returns = q ∙ (λ i. done (e + p i, (pow2 (m i) - 1) % u64_mod) t);
        enough = omega (arith, lt);
        not_before = omega (arith, le);
        left = inc;
      }

  loop_later :
      (n e x y : ℕ) (ps : List (ℕ × ℕ)) (o : Outcome (Duration × ℕ))
      → EndsAfter how_long ps rest (e + (y - x)) (suc n) o
      → EndsAfter how_long ((x, y) ∷ ps) rest e n o
  loop_later n e x y ps o h =
      let p : e + (y - x) + elapsed (suc h.short) ps ≡ e + (y - x + elapsed (suc h.short) ps) =
        omega arith in
      let m : suc n + suc h.short ≡ n + suc (suc h.short) = omega arith in
      record {
        short = suc h.short;
        target = h.target;
        returns = h.returns ∙ (λ i. done (p i, (pow2 (m i) - 1) % u64_mod) h.target);
        enough = omega (arith, h.enough);
        not_before = omega (arith, h.not_before);
        left = h.left;
      }

  warm_up_loop-EndsAfter :
      (fuel n e total : ℕ) (ps : List (ℕ × ℕ)) (b : Bencher) (t : Target)
      → length ps ≤ fuel
      → b.wants_elapsed_time ≡ true
      → b.iters ≡ pow2 n % u64_mod
      → total ≡ (pow2 n - 1) % u64_mod
      → t.incoming ≡ replies ps rest
      → Advance ps
      → e ≤ how_long
      → how_long < e + elapsed (length ps) ps
      → e + elapsed (length ps) ps < u64_mod
      → EndsAfter how_long ps rest e n (warm_up_loop fuel f how_long b e total t)
  unfolding warm_up_loop
  warm_up_loop-EndsAfter fuel n e total [] b t fu w it to inc adv le lt small =
      absurd (omega (arith, le, lt))
  warm_up_loop-EndsAfter zero n e total (p ∷ ps) b t fu w it to inc adv le lt small =
      absurd (omega (arith, fu))
  warm_up_loop-EndsAfter (suc fuel) n e total ((x, y) ∷ ps) b t fu w it to inc (xy, yu, adv) le lt
        small =
      let b' : Bencher = record b {
        iterated = false;
        value = sub_u64 (t.now (suc t.reads)) (t.now t.reads);
        elapsed_time = since y x;
      } in
      let t' = called b.iters (replies ps rest) t in
      let ran = invoke-timed f b t x y (replies ps rest) iters w inc in
      let e' : add_u64 e (since y x) ≡ e + (y - x) =
        add_lem e (y - x) (since y x) (since_lem x y xy yu) (omega (arith, small)) in
      let total' : add_u64 total b.iters ≡ (pow2 (suc n) - 1) % u64_mod =
        add_iters n total b.iters it to in
      elim (Bool-cases (ltb how_long (e + (y - x)))) [
        | inl long ↦
            loop_now n e x y ps t' _ refl le (ltb→lt how_long (e + (y - x)) long)
              (rw (ran, e', total', long) refl)
        | inr short ↦
            let next =
              warm_up_loop fuel f how_long (record b' { iters = (b.iters * 2) % u64_mod })
                (e + (y - x)) ((pow2 (suc n) - 1) % u64_mod) t' in
            let same : warm_up_loop (suc fuel) f how_long b e total t ≡ next =
              rw (ran, e', total', short) refl in
            subst (EndsAfter how_long ((x, y) ∷ ps) rest e n) (sym same) (
              loop_later n e x y ps next (
                warm_up_loop-EndsAfter fuel (suc n) (e + (y - x)) _ ps
                  (record b' { iters = (b.iters * 2) % u64_mod }) t' (omega (arith, fu)) w
                  (omega (arith, it)) refl refl adv (ground arith) (omega (arith, lt))
                  (omega (arith, small))))
      ]

-- Let the closure call `iter` once each time, let the host's replies be times that do not go back, and let
-- the calls they time take more than `how_long` together, as a `u64`. Then as much fuel as there are calls
-- is enough for `warm_up`: it returns behind the first call with which the time is more than
-- `how_long`, with that time, and with `2^n - 1` iterations for `n` calls.
pub warm_up-EndsAfter :
    (f : Closure) (how_long : Duration) (ps : List (ℕ × ℕ)) (rest : List DownstreamMessage)
    (t : Target)
    → ((i : ℕ) → f i ≡ iter ∷ [])
    → t.incoming ≡ replies ps rest
    → Advance ps
    → how_long < elapsed (length ps) ps
    → elapsed (length ps) ps < u64_mod
    → EndsAfter how_long ps rest 0 0 (warm_up (length ps) f how_long t)
unfolding warm_up
warm_up-EndsAfter f how_long ps rest t iters inc adv lt small =
    warm_up_loop-EndsAfter f iters how_long rest (length ps) 0 0 0 ps _ t (omega arith) refl refl
      refl inc adv (omega arith) (omega (arith, lt)) (omega (arith, small))
