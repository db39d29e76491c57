-- ===== src/Rtt/Reads.antt =====
-- What the loop of a poll, and a poll for reading, of `ReadWriteRtt` of src/proxy/targets/probe_rs.rs do to its two streams.
use farcri_rs.Prelude.{
  ℕ, ◌+◌, ◌-◌, min, ◌<◌, ◌≤◌, Bool, true, false, List, [], ◌∷◌, ◌++◌, length, take, ltb, leb,
  if◌then◌else◌, Bytes, ◌≡◌, refl, sym, ap, subst, ◌∙◌, arith, inl, inr, Bool-cases, append_assoc,
  length-take,
}
use farcri_rs.Buffer.{slice, length-slice, slice-take}
use farcri_rs.Rtt.{Channels, spmc_consumer_read}
use farcri_rs.Rtt.Polls.{
  Rt, idle, access, invalid, ReadWriteRtt, Turn, give, again, wait, fail, panic, with_st, hit_rtt,
  Polled, gives, waits, fails, unfinished, panics, fill_turn, poll_loop, turned, consume, taken,
  consumed, poll_read,
}
use farcri_rs.Rtt.ChannelLog.{Log, IsChannels}
use farcri_rs.Rtt.Buffers.{unread}
use farcri_rs.Rtt.Streams.{FlowsAt, Flows, FailedAt, Turns, hit_rtt-Turns}

module _ {R : Type 0} (ch : Channels R) (lg : Log R) where
  -- A poll gives what `P` says, or leaves the streams as they were, or an access has failed; it does
  -- not panic.
  abbrev pub Serves :
      {A : Type 0} → (A → ReadWriteRtt R → Type 0) → Bytes → Bytes → Polled R A → Type 0
  Serves P d a (gives x s) = P x s
  Serves P d a (waits s) = Flows ch lg d a s
  Serves P d a (fails s) = FailedAt ch lg d a s.st
  Serves P d a (unfinished s) = Flows ch lg d a s
  Serves P d a panics = ⊥

  turned-Serves :
      {A : Type 0} (P : A → ReadWriteRtt R → Type 0) (d a : Bytes) (x : Turn R A)
      (next : ReadWriteRtt R → Polled R A)
      → Turns ch lg P d a x
      → ((s : ReadWriteRtt R) → Flows ch lg d a s → Serves P d a (next s))
      → Serves P d a (turned x next)
  turned-Serves P d a (give x s) next h k = h
  turned-Serves P d a (again s) next h k = k s h
  turned-Serves P d a (wait s) next h k = h
  turned-Serves P d a (fail s) next h k = h
  turned-Serves P d a panic next h k = h

  pub poll_loop-Serves :
      {A : Type 0} (P : A → ReadWriteRtt R → Type 0) (d a : Bytes)
      (turn : Bool → Rt R → ReadWriteRtt R → Turn R A)
      → ((now : Bool) (st : Rt R) (s : ReadWriteRtt R)
          → s.st ≡ st
          → FlowsAt ch lg d a st
          → Turns ch lg P d a (turn now st s))
      → (answers : List Bool) (s : ReadWriteRtt R) → Flows ch lg d a s
      → Serves P d a (poll_loop turn answers s)
  unfolding poll_loop
  poll_loop-Serves P d a turn step [] s h = h
  poll_loop-Serves P d a turn step (now ∷ answers) s h =
      turned-Serves P d a (turn now s.st s) (poll_loop turn answers) (step now s.st s refl h)
        (λ s' k. poll_loop-Serves P d a turn step answers s' k)

  -- What `poll_fill_buf` gives is all that is unread, and is not empty.
  abbrev FilledAt : Bytes → Rt R → Type 0
  FilledAt buf (idle b r dr dw) = (b.read_pos < b.read_len) × (buf ≡ unread b)
  FilledAt buf st = ⊥

  abbrev Filled : Bytes → Bytes → Bytes → ReadWriteRtt R → Type 0
  Filled d a buf s = FilledAt buf s.st × Flows ch lg d a s

  -- What `poll_read` gives has been taken from the stream.
  abbrev pub Reads : Bytes → Bytes → ℕ → Bytes → ReadWriteRtt R → Type 0
  Reads d a room bs s = Flows ch lg (d ++ bs) a s × (length bs ≤ room) × (0 < room → 0 < length bs)

  module _ (law : IsChannels ch lg) (d a : Bytes) where
    fill_turn-Turns :
        (w : ℕ) (now : Bool) (st : Rt R) (s : ReadWriteRtt R)
        → s.st ≡ st
        → FlowsAt ch lg d a st
        → Turns ch lg (Filled d a) d a (fill_turn ch w now st s)
    unfolding fill_turn
    fill_turn-Turns w now (idle b r dr dw) s e h = elim (Bool-cases (ltb b.read_pos b.read_len)) [
      | inl more ↦ rw more (
          subst (λ st. FilledAt (slice b.read_pos b.read_len b.read) st × FlowsAt ch lg d a st)
            (sym e) ((ground arith, refl), h))
      | inr empty ↦ rw empty (waited dr now)
    ]
      where
        waited :
            (dr now : Bool)
            → Turns ch lg (Filled d a) d a (
                if dr
                then (if now then again (with_st s (idle b r false dw)) else wait s)
                else hit_rtt ch spmc_consumer_read w now (idle b r dr dw) s)
        waited true true = h
        waited true false = subst (FlowsAt ch lg d a) (sym e) h
        waited false now =
            hit_rtt-Turns ch lg (Filled d a) law d a s spmc_consumer_read w now (idle b r false dw)
              (omega arith) h
    fill_turn-Turns w now (access sp finished) s e h =
        hit_rtt-Turns ch lg (Filled d a) law d a s spmc_consumer_read w now (access sp finished)
          (omega arith) h
    fill_turn-Turns w now invalid s e h = elim h [ ]

    -- The buffer of which the reader has taken the first bytes.
    consume-Reads :
        (room : ℕ) (buf : Bytes) (st : Rt R) (s : ReadWriteRtt R)
        → FilledAt buf st
        → FlowsAt ch lg d a st
        → Serves
            (Reads d a room)
            d
            a
            (consumed (take (min (length buf) room) buf) (consume (min (length buf) room) st s))
    unfolding consumed consume
    consume-Reads room buf (idle b r dr dw) s (more, e) (v, f, g, m, n) =
        let k = min (length buf) room in
        let len : length buf ≡ b.read_len - b.read_pos =
          ap length e ∙ length-slice b.read_pos b.read_len b.read v.read_len_le in
        let fits : b.read_pos + k ≤ b.read_len = ground (arith, len) in
        let inside : leb (b.read_pos + k) b.read_len ≡ true = ground (arith, fits) in
        let parts =
          slice-take b.read_pos k b.read_len b.read fits
          ∙ ap (λ x. take k x ++ slice (b.read_pos + k) b.read_len b.read) (sym e) in
        rw inside (
          (
            record {
              read_pos_le = fits;
              read_len_le = v.read_len_le;
              write_pos_le = v.write_pos_le;
              write_len_le = v.write_len_le;
            },
            f ∙ ap (λ x. d ++ x) parts ∙ sym (append_assoc d (take k buf) _),
            g,
            m,
            n,
          ),
          omega (arith, length-take k buf),
          λ h. omega (arith, length-take k buf, len),
        )
    consume-Reads room buf (access sp finished) s h k = elim h [ ]
    consume-Reads room buf invalid s h k = elim h [ ]

    taken-Serves :
        (room : ℕ) (x : Polled R Bytes)
        → Serves (Filled d a) d a x
        → Serves (Reads d a room) d a (taken room x)
    unfolding taken
    taken-Serves room (gives buf s) (h, k) = consume-Reads room buf s.st s h k
    taken-Serves room (waits s) h = h
    taken-Serves room (fails s) h = h
    taken-Serves room (unfinished s) h = h
    taken-Serves room panics h = h

    pub poll_read-Serves :
        (room w : ℕ) (answers : List Bool) (s : ReadWriteRtt R)
        → Flows ch lg d a s
        → Serves (Reads d a room) d a (poll_read ch room w answers s)
    unfolding poll_read
    poll_read-Serves room w answers s h =
        taken-Serves room _
          (poll_loop-Serves (Filled d a) d a (fill_turn ch w) (fill_turn-Turns w) answers s h)
