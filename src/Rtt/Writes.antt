-- ===== src/Rtt/Writes.antt =====
-- What a poll for writing and one for flushing of `ReadWriteRtt` of src/proxy/targets/probe_rs.rs do to its two streams.
use farcri_rs.Prelude.{
  ℕ, ◌+◌, ◌-◌, min, ◌<◌, ◌≤◌, Bool, true, false, ◌||◌, List, ◌++◌, length, take, ltb, leb,
  if◌then◌else◌, Bytes, ◌≡◌, sym, ap, subst, ◌∙◌, arith, inl, inr, Bool-cases, append-nil,
  append_assoc, length-take,
}
use farcri_rs.Buffer.{slice, overwrite, length-overwrite, slice-overwrite}
use farcri_rs.Rtt.{Channels, Bufs, spmc_consumer_write}
use farcri_rs.Rtt.Polls.{
  Rt, idle, access, invalid, ReadWriteRtt, again, wait, with_st, hit_rtt, rewind_write, stored,
  write_turn, flush_turn, poll_write, poll_flush,
}
use farcri_rs.Rtt.ChannelLog.{Log, IsChannels}
use farcri_rs.Rtt.Buffers.{unsent, slice_nil}
use farcri_rs.Rtt.Streams.{Holds, FlowsAt, Flows, Turns, hit_rtt-Turns}
use farcri_rs.Rtt.Reads.{Serves, poll_loop-Serves}

module _ {R : Type 0} (ch : Channels R) (lg : Log R) where
  -- The bytes that `poll_write` accepts are added to the stream.
  abbrev pub Writes : Bytes → Bytes → Bytes → ℕ → ReadWriteRtt R → Type 0
  Writes d a buf n s =
      Flows ch lg d (a ++ take n buf) s × (n ≤ length buf) × (0 < length buf → 0 < n)

  -- All has been sent.
  abbrev SentAt : Bytes → Rt R → Type 0
  SentAt a (idle b r dr dw) = a ≡ lg.sent r
  SentAt a st = ⊥

  -- Behind `poll_flush` all that was accepted is sent.
  abbrev pub Flushes : Bytes → Bytes → Unit {0} → ReadWriteRtt R → Type 0
  Flushes d a u s = Flows ch lg d a s × SentAt a s.st

  rewind_write-Holds :
      (d a : Bytes) (b : Bufs) (r : R)
      → Holds ch lg d a b r
      → (ltb b.write_len (length b.write) || leb b.write_len b.write_pos) ≡ true
      → Holds ch lg d a (rewind_write b) r
        × ((rewind_write b).write_len < length (rewind_write b).write)
  rewind_write-Holds d a b r (v, e, f, m, n) room =
      elim (Bool-cases (leb b.write_len b.write_pos)) [
        | inl sent ↦ rw sent (
          (
            record {
              read_pos_le = v.read_pos_le;
              read_len_le = v.read_len_le;
              write_pos_le = omega arith;
              write_len_le = omega arith;
            },
            e,
            f ∙ ap (λ x. lg.sent r ++ x) (slice_nil b.write_pos b.write_len b.write (ground arith)),
            m,
            n,
          ),
          omega (arith, n),
        )
        | inr more ↦ rw more ((v, e, f, m, n), ground arith)
      ]

  stored-Writes :
      (d a buf : Bytes) (s : ReadWriteRtt R) (b : Bufs) (r : R) (dr dw : Bool)
      → Holds ch lg d a b r
      → b.write_len < length b.write
      → let (n, b') = stored buf b in Writes d a buf n (with_st s (idle b' r dr dw))
  stored-Writes d a buf s b r dr dw (v, e, f, m, n) room =
      let k = min (length b.write - b.write_len) (length buf) in
      let fits : k ≤ length buf = ground arith in
      let bs = take k buf in
      let len : length bs ≡ k = omega (arith, length-take k buf) in
      let up : b.write_len + k ≤ length b.write = ground arith in
      let grown = length-overwrite b.write_len bs b.write (omega (arith, up, len)) in
      (
        (
          record {
            read_pos_le = v.read_pos_le;
            read_len_le = v.read_len_le;
            write_pos_le = omega (arith, v.write_pos_le);
            write_len_le = omega (arith, grown, up);
          },
          e,
          (ap (λ x. x ++ bs) f
              ∙ append_assoc (lg.sent r) (unsent b) bs
              ∙ ap (λ x. lg.sent r ++ x)
                  (sym (
                      slice-overwrite b.write_pos b.write_len bs b.write v.write_pos_le
                        v.write_len_le)
                    ∙ ap
                        (λ n.
                          slice b.write_pos (b.write_len + n) (overwrite b.write_len bs b.write))
                        len)),
          m,
          (grown ∙ n),
        ),
        fits,
        λ h. ground arith,
      )

  module _ (law : IsChannels ch lg) (d a : Bytes) where
    write_turn-Turns :
        (buf : Bytes) (w : ℕ) (now : Bool) (st : Rt R) (s : ReadWriteRtt R)
        → s.st ≡ st
        → FlowsAt ch lg d a st
        → Turns ch lg (Writes d a buf) d a (write_turn ch buf w now st s)
    unfolding write_turn
    write_turn-Turns buf w now (idle b r dr dw) s e h =
        elim (Bool-cases (ltb b.write_len (length b.write) || leb b.write_len b.write_pos)) [
          | inl room ↦ rw room (
              let (h', k) = rewind_write-Holds d a b r h room in
              stored-Writes d a buf s (rewind_write b) r dr dw h' k)
          | inr full ↦ rw full (waited dw now)
        ]
      where
        waited :
            (dw now : Bool)
            → Turns ch lg (Writes d a buf) d a (
                if dw
                then (if now then again (with_st s (idle b r dr false)) else wait s)
                else hit_rtt ch spmc_consumer_write w now (idle b r dr dw) s)
        waited true true = h
        waited true false = subst (FlowsAt ch lg d a) (sym e) h
        waited false now =
            hit_rtt-Turns ch lg (Writes d a buf) law d a s spmc_consumer_write w now
              (idle b r dr false) (omega arith) h
    write_turn-Turns buf w now (access sp finished) s e h =
        hit_rtt-Turns ch lg (Writes d a buf) law d a s spmc_consumer_write w now
          (access sp finished) (omega arith) h
    write_turn-Turns buf w now invalid s e h = elim h [ ]

    flush_turn-Turns :
        (w : ℕ) (now : Bool) (st : Rt R) (s : ReadWriteRtt R)
        → s.st ≡ st
        → FlowsAt ch lg d a st
        → Turns ch lg (Flushes d a) d a (flush_turn ch w now st s)
    unfolding flush_turn
    flush_turn-Turns w now (idle b r dr dw) s e h =
        elim (Bool-cases (leb b.write_len b.write_pos)) [
          | inl sent ↦ rw sent (emptied h sent)
          | inr more ↦ rw more (waited dw now)
        ]
      where
        emptied :
            Holds ch lg d a b r
            → leb b.write_len b.write_pos ≡ true
            → Flushes d a tt (with_st s (idle (record b { write_pos = 0; write_len = 0 }) r dr dw))
        emptied (v, e, f, m, n) sent =
            let all =
              f
              ∙ ap (λ x. lg.sent r ++ x)
                  (slice_nil b.write_pos b.write_len b.write (ground arith)) in
            (
              (
                record {
                  read_pos_le = v.read_pos_le;
                  read_len_le = v.read_len_le;
                  write_pos_le = omega arith;
                  write_len_le = omega arith;
                },
                e,
                all,
                m,
                n,
              ),
              all ∙ append-nil (lg.sent r),
            )

        waited :
            (dw now : Bool)
            → Turns ch lg (Flushes d a) d a (
                if dw
                then (if now then again (with_st s (idle b r dr false)) else wait s)
                else hit_rtt ch spmc_consumer_write w now (idle b r dr dw) s)
        waited true true = h
        waited true false = subst (FlowsAt ch lg d a) (sym e) h
        waited false now =
            hit_rtt-Turns ch lg (Flushes d a) law d a s spmc_consumer_write w now
              (idle b r dr false) (omega arith) h
    flush_turn-Turns w now (access sp finished) s e h =
        hit_rtt-Turns ch lg (Flushes d a) law d a s spmc_consumer_write w now (access sp finished)
          (omega arith) h
    flush_turn-Turns w now invalid s e h = elim h [ ]

    pub poll_write-Serves :
        (buf : Bytes) (w : ℕ) (answers : List Bool) (s : ReadWriteRtt R)
        → Flows ch lg d a s
        → Serves ch lg (Writes d a buf) d a (poll_write ch buf w answers s)
    unfolding poll_write
    poll_write-Serves buf w answers s h =
        poll_loop-Serves ch lg (Writes d a buf) d a (write_turn ch buf w) (write_turn-Turns buf w)
          answers s h

    pub poll_flush-Serves :
        (w : ℕ) (answers : List Bool) (s : ReadWriteRtt R)
        → Flows ch lg d a s
        → Serves ch lg (Flushes d a) d a (poll_flush ch w answers s)
    unfolding poll_flush
    poll_flush-Serves w answers s h =
        poll_loop-Serves ch lg (Flushes d a) d a (flush_turn ch w) (flush_turn-Turns w) answers s h
