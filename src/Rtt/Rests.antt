-- ===== src/Rtt/Rests.antt =====
-- The loops of the polls of `ReadWriteRtt` of src/proxy/targets/probe_rs.rs end.
use farcri_rs.Prelude.{
  ℕ, ◌+◌, Bool, true, false, ◌||◌, some, List, [], ◌∷◌, ◌++◌, length, min, ltb, leb, ◌==◌,
  if◌then◌else◌, Bytes, ◌≡◌, refl, subst, inl, inr, Bool-cases,
}
use farcri_rs.Futures.{Spmc, get_or_insert, polled_inner, spmc_poll}
use farcri_rs.Rtt.{
  Channels, Access, error, accessed, hit_rtt_inner, spmc_consumer_read, spmc_consumer_write,
}
use farcri_rs.Rtt.Polls.{
  Rt, idle, access, invalid, ReadWriteRtt, Turn, give, again, wait, fail, panic, starts, joined,
  answer, hit_rtt, Polled, gives, waits, fails, unfinished, panics, fill_turn, write_turn,
  flush_turn, poll_loop, turned, consume, taken, consumed, poll_read, poll_write, poll_flush,
}
use farcri_rs.Rtt.ChannelLog.{Log, IsChannels}
use farcri_rs.Rtt.Streams.{Flows, FailedAt}
use farcri_rs.Rtt.Reads.{Serves, Reads, poll_read-Serves}
use farcri_rs.Rtt.Writes.{Writes, Flushes, poll_write-Serves, poll_flush-Serves}

-- A turn that ends the loop.
abbrev Ends : {R A : Type 0} → Turn R A → Type 0
Ends (again s) = ⊥
Ends t = Unit {0}

abbrev InAccess : {R : Type 0} → Rt R → Type 0
InAccess (access sp finished) = Unit {0}
InAccess st = ⊥

-- A turn that starts an access, or ends the loop.
abbrev Rests : {R A : Type 0} → Turn R A → Type 0
Rests (again s) = InAccess s.st
Rests t = Unit {0}

-- The poll does not go on, but it may have panicked.
abbrev Stops : {R A : Type 0} → Polled R A → Type 0
Stops (unfinished s) = ⊥
Stops p = Unit {0}

Ends-Rests : {R A : Type 0} (t : Turn R A) → Ends t → Rests t
Ends-Rests (give a s) h = tt
Ends-Rests (again s) h = elim h [ ]
Ends-Rests (wait s) h = tt
Ends-Rests (fail s) h = tt
Ends-Rests panic h = tt

module _ {R : Type 0} where
  starts-InAccess : (x : Access R) (s : ReadWriteRtt R) → InAccess (starts x s).st
  unfolding starts
  starts-InAccess error s = tt
  starts-InAccess (accessed b sr sw r out) s = tt

module _ {R : Type 0} (A : Type 0) (ch : Channels R) where
  -- While the access is not over, a poll waits for it.
  hit_access-Ends :
      (c w : ℕ) (sp : Spmc (Access R)) (finished : Bool) (s : ReadWriteRtt R)
      → Ends (hit_rtt ch {A = A} c w false (access sp finished) s)
  unfolding hit_rtt spmc_poll joined polled_inner answer
  hit_access-Ends c w sp finished s = elim (Bool-cases (ltb c (length sp.wakers))) [
    | inl inside ↦ elim (Bool-cases (c == get_or_insert sp.active_consumer_index c)) [
      | inl active ↦ rw (inside, active) (polled finished)
      | inr passive ↦ rw (inside, passive) tt
    ]
    | inr outside ↦ rw outside tt
  ]
    where
      polled :
          (finished : Bool)
          → let sp' = record sp {
            active_consumer_index = some (get_or_insert sp.active_consumer_index c);
          } in
            Ends (joined {A = A} finished sp' (polled_inner (answer finished sp.fut) sp') s)
      polled true = tt
      polled false = tt

  hit_rtt-Rests :
      (c w : ℕ) (st : Rt R) (s : ReadWriteRtt R) → Rests (hit_rtt ch {A = A} c w false st s)
  unfolding hit_rtt
  hit_rtt-Rests c w (idle b r dr dw) s = starts-InAccess (hit_rtt_inner ch b r) s
  hit_rtt-Rests c w (access sp finished) s = Ends-Rests _ (hit_access-Ends c w sp finished s)
  hit_rtt-Rests c w invalid s = tt

-- A turn, while nothing that it awaits is ready: it ends the loop or starts an access, and it ends the
-- loop during an access.
abbrev IsPatient : {R A : Type 0} → (Bool → Rt R → ReadWriteRtt R → Turn R A) → Type 0
IsPatient {R} turn =
    ((st : Rt R) (s : ReadWriteRtt R) → Rests (turn false st s))
    × ((sp : Spmc (Access R)) (finished : Bool) (s : ReadWriteRtt R)
        → Ends (turn false (access sp finished) s))

module _ {R A : Type 0} where
  second_turn :
      (turn : Bool → Rt R → ReadWriteRtt R → Turn R A) (after : List Bool) (st : Rt R)
      (s : ReadWriteRtt R)
      → IsPatient turn
      → InAccess st
      → Stops (turned (turn false st s) (poll_loop turn after))
  second_turn turn after (idle b r dr dw) s p h = elim h [ ]
  second_turn turn after (access sp finished) s p h =
      ended (turn false (access sp finished) s) (p.1 sp finished s)
    where
      ended : (t : Turn R A) → Ends t → Stops (turned t (poll_loop turn after))
      ended (give a s) h = tt
      ended (again s) h = elim h [ ]
      ended (wait s) h = tt
      ended (fail s) h = tt
      ended panic h = tt
  second_turn turn after invalid s p h = elim h [ ]

  turned-Stops :
      (P : ReadWriteRtt R → Type 0) (t : Turn R A) (next : ReadWriteRtt R → Polled R A)
      → ((s : ReadWriteRtt R) → t ≡ again s → P s)
      → ((s : ReadWriteRtt R) → P s → Stops (next s))
      → Stops (turned t next)
  turned-Stops P (give a s) next h k = tt
  turned-Stops P (again s) next h k = k s (h s refl)
  turned-Stops P (wait s) next h k = tt
  turned-Stops P (fail s) next h k = tt
  turned-Stops P panic next h k = tt

  poll_loop-Stops :
      (turn : Bool → Rt R → ReadWriteRtt R → Turn R A)
      → IsPatient turn
      → (before after : List Bool) (s : ReadWriteRtt R)
      → Stops (poll_loop turn (before ++ (false ∷ false ∷ after)) s)
  unfolding poll_loop
  poll_loop-Stops turn p [] after s =
      turned-Stops (λ s'. InAccess s'.st) (turn false s.st s) _ (λ s' e. subst Rests e (p.0 s.st s))
        (λ s' h. second_turn turn after s'.st s' p h)
  poll_loop-Stops turn p (now ∷ before) after s =
      turned-Stops (λ s'. Unit {0}) (turn now s.st s) _ (λ s' e. tt)
        (λ s' h. poll_loop-Stops turn p before after s')

module _ {R : Type 0} (ch : Channels R) where
  -- A turn in which a delay or, when there is none, an access is awaited.
  delayed-Rests :
      (A : Type 0) (c w : ℕ) (delay : Bool) (st : Rt R) (s : ReadWriteRtt R)
      → Rests {A = A} (if delay then wait s else hit_rtt ch c w false st s)
  delayed-Rests A c w true st s = tt
  delayed-Rests A c w false st s = hit_rtt-Rests A ch c w st s

  fill_turn-IsPatient : (w : ℕ) → IsPatient (fill_turn ch w)
  unfolding fill_turn
  fill_turn-IsPatient w = (rests, hit_access-Ends Bytes ch spmc_consumer_read w)
    where
      rests : (st : Rt R) (s : ReadWriteRtt R) → Rests (fill_turn ch w false st s)
      rests (idle b r dr dw) s = elim (Bool-cases (ltb b.read_pos b.read_len)) [
        | inl more ↦ rw more tt
        | inr empty ↦ rw empty (delayed-Rests Bytes spmc_consumer_read w dr (idle b r dr dw) s)
      ]
      rests (access sp finished) s =
          hit_rtt-Rests Bytes ch spmc_consumer_read w (access sp finished) s
      rests invalid s = hit_rtt-Rests Bytes ch spmc_consumer_read w invalid s

  write_turn-IsPatient : (buf : Bytes) (w : ℕ) → IsPatient (write_turn ch buf w)
  unfolding write_turn
  write_turn-IsPatient buf w = (rests, hit_access-Ends ℕ ch spmc_consumer_write w)
    where
      rests : (st : Rt R) (s : ReadWriteRtt R) → Rests (write_turn ch buf w false st s)
      rests (idle b r dr dw) s =
          elim (Bool-cases (ltb b.write_len (length b.write) || leb b.write_len b.write_pos)) [
            | inl room ↦ rw room tt
            | inr full ↦ rw full (delayed-Rests ℕ spmc_consumer_write w dw (idle b r dr dw) s)
          ]
      rests (access sp finished) s = hit_rtt-Rests ℕ ch spmc_consumer_write w (access sp finished) s
      rests invalid s = hit_rtt-Rests ℕ ch spmc_consumer_write w invalid s

  flush_turn-IsPatient : (w : ℕ) → IsPatient (flush_turn ch w)
  unfolding flush_turn
  flush_turn-IsPatient w = (rests, hit_access-Ends (Unit {0}) ch spmc_consumer_write w)
    where
      rests : (st : Rt R) (s : ReadWriteRtt R) → Rests (flush_turn ch w false st s)
      rests (idle b r dr dw) s = elim (Bool-cases (leb b.write_len b.write_pos)) [
        | inl sent ↦ rw sent tt
        | inr more ↦ rw more (delayed-Rests (Unit {0}) spmc_consumer_write w dw (idle b r dr dw) s)
      ]
      rests (access sp finished) s =
          hit_rtt-Rests (Unit {0}) ch spmc_consumer_write w (access sp finished) s
      rests invalid s = hit_rtt-Rests (Unit {0}) ch spmc_consumer_write w invalid s

  consume-Stops :
      (bs : Bytes) (n : ℕ) (st : Rt R) (s : ReadWriteRtt R) → Stops (consumed bs (consume n st s))
  unfolding consumed consume
  consume-Stops bs n (idle b r dr dw) s = elim (Bool-cases (leb (b.read_pos + n) b.read_len)) [
    | inl inside ↦ rw inside tt
    | inr outside ↦ rw outside tt
  ]
  consume-Stops bs n (access sp finished) s = tt
  consume-Stops bs n invalid s = tt

  taken-Stops : (room : ℕ) (p : Polled R Bytes) → Stops p → Stops (taken room p)
  unfolding taken
  taken-Stops room (gives buf s) h = consume-Stops _ (min (length buf) room) s.st s
  taken-Stops room (waits s) h = tt
  taken-Stops room (fails s) h = tt
  taken-Stops room (unfinished s) h = h
  taken-Stops room panics h = tt

module _ {R : Type 0} (ch : Channels R) (lg : Log R) where
  -- A poll that comes to its end: it gives what `P` says, or waits and leaves the streams as they were,
  -- or an access has failed.
  abbrev pub Returns :
      {A : Type 0} → (A → ReadWriteRtt R → Type 0) → Bytes → Bytes → Polled R A → Type 0
  Returns P d a (gives x s) = P x s
  Returns P d a (waits s) = Flows ch lg d a s
  Returns P d a (fails s) = FailedAt ch lg d a s.st
  Returns P d a (unfinished s) = ⊥
  Returns P d a panics = ⊥

  Serves-Returns :
      {A : Type 0} (P : A → ReadWriteRtt R → Type 0) (d a : Bytes) (x : Polled R A)
      → Serves ch lg P d a x
      → Stops x
      → Returns P d a x
  Serves-Returns P d a (gives x s) h k = h
  Serves-Returns P d a (waits s) h k = h
  Serves-Returns P d a (fails s) h k = h
  Serves-Returns P d a (unfinished s) h k = k
  Serves-Returns P d a panics h k = h

  -- On a link whose streams are in order, as they are behind any polls of a new one, each poll returns and
  -- does not panic, once nothing that it awaits is ready at two turns on end. It waits, and leaves the
  -- streams as they were, or fails, where a reading or a writing of the channels does; or a read gives the
  -- next bytes of the terminal channel, a write takes a head of its bytes, each at least one if there is
  -- room or there are bytes, and behind a flush all that was written has been sent.
  pub polls-Returns :
      (law : IsChannels ch lg) (room : ℕ) (buf : Bytes) (w : ℕ) (before after : List Bool)
      (d a : Bytes) (s : ReadWriteRtt R)
      → Flows ch lg d a s
      → let answers = before ++ (false ∷ false ∷ after) in
        Returns (Reads ch lg d a room) d a (poll_read ch room w answers s)
        × Returns (Writes ch lg d a buf) d a (poll_write ch buf w answers s)
        × Returns (Flushes ch lg d a) d a (poll_flush ch w answers s)
  unfolding poll_read poll_write poll_flush
  polls-Returns law room buf w before after d a s h =
      let answers = before ++ (false ∷ false ∷ after) in
      (
        Serves-Returns (Reads ch lg d a room) d a (poll_read ch room w answers s)
            (poll_read-Serves ch lg law d a room w answers s h)
            (taken-Stops ch room _
              (poll_loop-Stops (fill_turn ch w) (fill_turn-IsPatient ch w) before after s)),
        Serves-Returns (Writes ch lg d a buf) d a (poll_write ch buf w answers s)
            (poll_write-Serves ch lg law d a buf w answers s h)
            (poll_loop-Stops (write_turn ch buf w) (write_turn-IsPatient ch buf w) before after s),
        Serves-Returns (Flushes ch lg d a) d a (poll_flush ch w answers s)
            (poll_flush-Serves ch lg law d a w answers s h)
            (poll_loop-Stops (flush_turn ch w) (flush_turn-IsPatient ch w) before after s),
      )
