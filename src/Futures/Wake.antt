-- ===== src/Futures/Wake.antt =====
-- `Spmc` of src/utils/futures.rs wakes every consumer that waits.
use farcri_rs.Prelude.{
  ℕ, zero, suc, ◌<◌, ◌≤◌, Option, none, some, List, [], ◌∷◌, length, get_elem?, set, ltb, ◌==◌, ◌≡◌,
  ◌≢◌, false, ◌⊎◌, inl, inr, refl, ap, ◌∙◌, arith, Bool-cases, ==_iff,
}
use farcri_rs.Futures.{
  Spmc, SpmcPoll, ready, pending, panicked, taken, registered, polled_inner, get_or_insert,
  spmc_poll,
}

get_elem?-set_self :
    (ws : List (Option ℕ)) (c : ℕ) (o : Option ℕ)
    → c < length ws
    → get_elem? (set ws c o) c ≡ some o
get_elem?-set_self [] c o h = elim h [ ]
get_elem?-set_self (w ∷ ws) zero o h = refl
get_elem?-set_self (w ∷ ws) (suc c) o h = get_elem?-set_self ws c o (omega arith)

get_elem?-set_of_ne :
    (ws : List (Option ℕ)) (c d : ℕ) (o : Option ℕ)
    → d ≢ c
    → get_elem? (set ws c o) d ≡ get_elem? ws d
get_elem?-set_of_ne [] c d o h = refl
get_elem?-set_of_ne (w ∷ ws) zero zero o h = absurd (h refl)
get_elem?-set_of_ne (w ∷ ws) zero (suc d) o h = refl
get_elem?-set_of_ne (w ∷ ws) (suc c) zero o h = refl
get_elem?-set_of_ne (w ∷ ws) (suc c) (suc d) o h = get_elem?-set_of_ne ws c d o (λ e. h (ap suc e))

taken-all :
    (ws : List (Option ℕ)) (d v : ℕ)
    → get_elem? ws d ≡ some (some v)
    → (i : ℕ) × (get_elem? (taken ws) i ≡ some v)
taken-all [] d v e = cc
taken-all (none ∷ ws) zero v e = cc
taken-all (none ∷ ws) (suc d) v e = taken-all ws d v e
taken-all (some w ∷ ws) zero v e = (0, cc)
taken-all (some w ∷ ws) (suc d) v e = let (i, p) = taken-all ws d v e in (suc i, p)

-- The cell of the consumer holds the waker, and the other cells what they held.
registered_lem :
    (o : Option (Option ℕ)) (w c : ℕ) (ws : List (Option ℕ))
    → get_elem? ws c ≡ o
    → c < length ws
    → (get_elem? (registered o w c ws) c ≡ some (some w))
      × ((d : ℕ) → d ≢ c → get_elem? (registered o w c ws) d ≡ get_elem? ws d)
registered_lem none w c ws e h =
    (get_elem?-set_self ws c (some w) h, λ d n. get_elem?-set_of_ne ws c d (some w) n)
registered_lem (some none) w c ws e h =
    (get_elem?-set_self ws c (some w) h, λ d n. get_elem?-set_of_ne ws c d (some w) n)
registered_lem (some (some w')) w c ws e h = elim (Bool-cases (w' == w)) [
  | inl same ↦ (rw same (e ∙ ap (λ x. some (some x)) ((==_iff w' w).0 same)), λ d n. rw same refl)
  | inr other ↦ (
    rw other (get_elem?-set_self ws c (some w) h),
    λ d n. rw other (get_elem?-set_of_ne ws c d (some w) n),
  )
]

-- The consumer is the one that polls the inner future: the first that ever polled.
abbrev pub IsFirst : {Fut : Type 0} → ℕ → Spmc Fut → Type 0
IsFirst c s = c ≡ get_or_insert s.active_consumer_index c

module _ {Fut Output : Type 0} where
  -- What a poll by consumer `c` with waker `w` leaves or gives, given what a poll of the inner future gives.
  abbrev pub Polled : Option Output × Fut → ℕ → ℕ → Spmc Fut → SpmcPoll Fut Output → Type 0
  Polled inner c w s (pending s') =
      (s'.active_consumer_index ≡ some (get_or_insert s.active_consumer_index c))
      × (IsFirst c s × (inner ≡ (none, s'.fut)) × (s'.wakers ≡ s.wakers)
          ⊎ ¬ IsFirst c s
            × (s'.fut ≡ s.fut)
            × (get_elem? s'.wakers c ≡ some (some w))
            × ((d : ℕ) → d ≢ c → get_elem? s'.wakers d ≡ get_elem? s.wakers d))
  Polled inner c w s (ready x woken) =
      IsFirst c s
      × (inner.0 ≡ some x)
      × ((d v : ℕ) → get_elem? s.wakers d ≡ some (some v) → (i : ℕ) × (get_elem? woken i ≡ some v))
  Polled inner c w s panicked = length s.wakers ≤ c

  active-Polled :
      (c w : ℕ) (s : Spmc Fut) (o : Option Output × Fut)
      → IsFirst c s
      → Polled o c w s (
          polled_inner o
            (record s { active_consumer_index = some (get_or_insert s.active_consumer_index c) }))
  unfolding polled_inner
  active-Polled c w s (some x, fut) e = (e, refl, λ d v. taken-all s.wakers d v)
  active-Polled c w s (none, fut) e = (refl, inl (e, refl, refl))

  -- Of several consumers only the first to poll polls the inner future: it gets what that gives, and the
  -- inner future goes on from there. Any other that polls gets `Pending` and leaves the inner future as it
  -- is; its waker of that poll is kept, with those of the other consumers, until the inner future is
  -- ready: then every waker that is kept is woken. A consumer without a slot panics.
  pub spmc_poll-Polled :
      (poll : Fut → Option Output × Fut) (c w : ℕ) (s : Spmc Fut)
      → Polled (poll s.fut) c w s (spmc_poll poll c w s)
  unfolding spmc_poll
  spmc_poll-Polled poll c w s = elim (Bool-cases (ltb c (length s.wakers))) [
    | inl inside ↦ elim (Bool-cases (c == get_or_insert s.active_consumer_index c)) [
      | inl active ↦ rw (inside, active) (active-Polled c w s (poll s.fut) ((==_iff c _).0 active))
      | inr passive ↦
          let (own, others) =
            registered_lem (get_elem? s.wakers c) w c s.wakers refl (ground arith) in
          rw (inside, passive) (refl, inr (not_first passive, refl, own, others))
    ]
    | inr outside ↦ rw outside (ground arith)
  ]
    where
      not_first :
          (c == get_or_insert s.active_consumer_index c) ≡ false
          → ¬ (c ≡ get_or_insert s.active_consumer_index c)
      not_first e same = ground arith
