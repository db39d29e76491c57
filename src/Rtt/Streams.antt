-- ===== src/Rtt/Streams.antt =====
-- The two streams of `ReadWriteRtt` of src/proxy/targets/probe_rs.rs: its polls lose no byte, and give none
-- twice or out of order, whatever consumers share an access.
use farcri_rs.Prelude.{
  ℕ, ◌<◌, Bool, true, false, ◌||◌, Option, none, some, List, ◌++◌, length, get_elem?, ◌==◌, Bytes,
  ◌≡◌, refl, sym, ap, ◌∙◌, arith, inl, inr, Bool-cases, lt→ltb, append_assoc, length-set,
}
use farcri_rs.Futures.{Spmc, get_or_insert, registered, polled_inner, spmc_poll}
use farcri_rs.Rtt.{Channels, Bufs, Access, error, accessed}
use farcri_rs.Rtt.Polls.{
  Rt, idle, access, invalid, ReadWriteRtt, Turn, give, again, wait, fail, panic, starts, joined,
  answer, hit_rtt,
}
use farcri_rs.Rtt.ChannelLog.{Log, IsChannels, FailsAt}
use farcri_rs.Rtt.Buffers.{IsValid, unread, unsent, Accesses, hit_rtt_inner-Accesses}

length-registered :
    (o : Option (Option ℕ)) (w c : ℕ) (ws : List (Option ℕ))
    → length (registered o w c ws) ≡ length ws
length-registered none w c ws = length-set ws c (some w)
length-registered (some none) w c ws = length-set ws c (some w)
length-registered (some (some w')) w c ws = elim (Bool-cases (w' == w)) [
  | inl same ↦ rw same refl
  | inr other ↦ rw other (length-set ws c (some w))
]

module _ {R : Type 0} (ch : Channels R) (lg : Log R) where
  -- The buffers, behind `delivered` to the reader and `accepted` from the writer: what the terminal channel
  -- has given is what was delivered and what is unread, and what was accepted is what the down
  -- channel has taken and what is unsent.
  abbrev pub Holds : Bytes → Bytes → Bufs → R → Type 0
  Holds delivered accepted b r =
      IsValid b
      × (lg.received r ≡ delivered ++ unread b)
      × (accepted ≡ lg.sent r ++ unsent b)
      × (length b.read ≡ 1024)
      × (length b.write ≡ 1024)

  -- A reading or a writing of the channels fails, where what was delivered is a head of what the terminal
  -- channel has given, and what the down channel has taken a head of what was accepted.
  abbrev pub Breaks : Bytes → Bytes → Type 0
  Breaks d a =
      (r : R) × (t : Bytes) × (u : Bytes) × (lg.received r ≡ d ++ t)
      × (a ≡ lg.sent r ++ u)
      × FailsAt ch r

  abbrev pub Awaits : Bytes → Bytes → Access R → Type 0
  Awaits d a error = Breaks d a
  Awaits d a (accessed b sr sw r out) = Holds d a b r

  abbrev pub FlowsAt : Bytes → Bytes → Rt R → Type 0
  FlowsAt d a (idle b r dr dw) = Holds d a b r
  FlowsAt d a (access sp finished) = (finished ≡ false) × (length sp.wakers ≡ 2) × Awaits d a sp.fut
  FlowsAt d a invalid = ⊥

  abbrev pub Flows : Bytes → Bytes → ReadWriteRtt R → Type 0
  Flows d a s = FlowsAt d a s.st

  -- The last access failed, since a reading or a writing of the channels did.
  abbrev pub FailedAt : Bytes → Bytes → Rt R → Type 0
  FailedAt d a (access sp finished) = (finished ≡ true) × (sp.fut ≡ error) × Breaks d a
  FailedAt d a st = ⊥

  -- A turn gives what `P` says, or leaves the streams as they were, or fails; it does not panic.
  abbrev pub Turns :
      {A : Type 0} → (A → ReadWriteRtt R → Type 0) → Bytes → Bytes → Turn R A → Type 0
  Turns P d a (give x s) = P x s
  Turns P d a (again s) = Flows d a s
  Turns P d a (wait s) = Flows d a s
  Turns P d a (fail s) = FailedAt d a s.st
  Turns P d a panic = ⊥

  starts-Flows :
      (d a : Bytes) (s : ReadWriteRtt R) (b : Bufs) (r : R) (x : Access R)
      → Accesses ch lg b r x
      → Holds d a b r
      → Flows d a (starts x s)
  unfolding starts
  starts-Flows d a s b r error (r', (t, p), q, fails) (v, e, f, m, n) = (
    refl,
    refl,
    (
      r',
      unread b ++ t,
      unsent b,
      p ∙ ap (λ x. x ++ t) e ∙ append_assoc d (unread b) t,
      f ∙ ap (λ x. x ++ unsent b) (sym q),
      fails,
    ),
  )
  starts-Flows d a s b r (accessed b' sr sw r' out) (v, (t, p, g), (w, q, h), (k, l))
        (v₀, e, f, m, n) =
      (
        refl,
        refl,
        (
          v,
          p ∙ ap (λ x. x ++ t) e ∙ append_assoc d (unread b) t ∙ ap (λ x. d ++ x) (sym g),
          f
              ∙ ap (λ x. lg.sent r ++ x) h
              ∙ sym (append_assoc (lg.sent r) w (unsent b'))
              ∙ ap (λ x. x ++ unsent b') (sym q),
          k ∙ m,
          l ∙ n,
        ),
      )

  module _ {A : Type 0} (P : A → ReadWriteRtt R → Type 0) where
    joined-Turns :
        (d a : Bytes) (s : ReadWriteRtt R) (sp : Spmc (Access R)) (now : Bool) (x : Access R)
        → length sp.wakers ≡ 2
        → sp.fut ≡ x
        → Awaits d a x
        → Turns P d a (joined false sp (polled_inner (answer now x) sp) s)
    unfolding joined polled_inner answer
    joined-Turns d a s sp false x n e h = (refl, n, h)
    joined-Turns d a s sp true error n e h = (refl, e, h)
    joined-Turns d a s sp true (accessed b sr sw r out) n e h = h

    hit_access-Turns :
        (d a : Bytes) (s : ReadWriteRtt R) (c w : ℕ) (now : Bool) (sp : Spmc (Access R))
        (finished : Bool)
        → c < 2
        → FlowsAt d a (access sp finished)
        → Turns P d a (hit_rtt ch c w now (access sp finished) s)
    unfolding hit_rtt spmc_poll joined
    hit_access-Turns d a s c w now sp true lt (e, n, h) = absurd cc
    hit_access-Turns d a s c w now sp false lt (e, n, h) =
        let i = get_or_insert sp.active_consumer_index c in
        let inside = lt→ltb c (length sp.wakers) (omega (arith, n)) in
        elim (Bool-cases (c == i)) [
          | inl active ↦
              rw (inside, active)
                (joined-Turns d a s (record sp { active_consumer_index = some i }) (now || false)
                  sp.fut n refl h)
          | inr passive ↦
              rw (inside, passive)
                (refl, length-registered (get_elem? sp.wakers c) w c sp.wakers ∙ n, h)
        ]

    pub hit_rtt-Turns :
        (law : IsChannels ch lg) (d a : Bytes) (s : ReadWriteRtt R) (c w : ℕ) (now : Bool)
        (st : Rt R)
        → c < 2
        → FlowsAt d a st
        → Turns P d a (hit_rtt ch c w now st s)
    unfolding hit_rtt
    hit_rtt-Turns law d a s c w now (idle b r dr dw) lt h =
        starts-Flows d a s b r _ (hit_rtt_inner-Accesses ch lg law b r h.0) h
    hit_rtt-Turns law d a s c w now (access sp finished) lt h =
        hit_access-Turns d a s c w now sp finished lt h
    hit_rtt-Turns law d a s c w now invalid lt h = elim h [ ]
