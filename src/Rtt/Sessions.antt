-- ===== src/Rtt/Sessions.antt =====
-- Whole uses of a `ReadWriteRtt` of src/proxy/targets/probe_rs.rs: polls by a reader and a writer in any
-- order, from `ReadWriteRtt::new` on.
use farcri_rs.Prelude.{
  ℕ, ◌≤◌, Bool, false, List, [], ◌∷◌, ◌++◌, length, take, Bytes, ◌≡◌, sym, subst, ◌∙◌, arith,
  append-nil, length-replicate,
}
use farcri_rs.Buffer.{length-slice}
use farcri_rs.Rtt.{Channels, Bufs, Access, error, accessed}
use farcri_rs.Rtt.Polls.{
  Rt, idle, access, invalid, ReadWriteRtt, new, Polled, gives, waits, fails, unfinished, panics,
  poll_read, poll_write, poll_flush,
}
use farcri_rs.Rtt.ChannelLog.{Log, IsChannels}
use farcri_rs.Rtt.Buffers.{unread, unsent}
use farcri_rs.Rtt.Streams.{Holds, Breaks, Awaits, FlowsAt, Flows, FailedAt}
use farcri_rs.Rtt.Reads.{Serves, Reads, poll_read-Serves}
use farcri_rs.Rtt.Writes.{Writes, Flushes, poll_write-Serves, poll_flush-Serves}

-- A poll, with the waker of its task and the answers of what it awaits.
pub data Call : Type 0 where
  read : (room w : ℕ) (answers : List Bool) → Call
  write : (buf : Bytes) (w : ℕ) (answers : List Bool) → Call
  flush : (w : ℕ) (answers : List Bool) → Call

-- After some calls: the bytes that the reader got and that the writer could write. The user stops at an
-- error.
pub data Session (R : Type 0) : Type 0 where
  live : (delivered accepted : Bytes) (s : ReadWriteRtt R) → Session R
  stopped : (delivered accepted : Bytes) (s : ReadWriteRtt R) → Session R
  panicked : Session R

-- What is left of a poll that gives `a`, with `next` for what is added to the two streams.
went : {R A : Type 0} → Polled R A → Bytes → Bytes → (A → Bytes × Bytes) → Session R
went (gives x s) d a next = live (d ++ (next x).0) (a ++ (next x).1) s
went (waits s) d a next = live d a s
went (fails s) d a next = stopped d a s
went (unfinished s) d a next = live d a s
went panics d a next = panicked

module _ {R : Type 0} (ch : Channels R) where
  called : Call → Session R → Session R
  unfolding went
  called (read room w answers) (live d a s) =
      went (poll_read ch room w answers s) d a (λ bs. (bs, []))
  called (write buf w answers) (live d a s) =
      went (poll_write ch buf w answers s) d a (λ n. ([], take n buf))
  called (flush w answers) (live d a s) = went (poll_flush ch w answers s) d a (λ u. ([], []))
  called call (stopped d a s) = stopped d a s
  called call panicked = panicked

  unfoldable pub session : List Call → Session R → Session R
  unfolding called
  session [] x = x
  session (call ∷ calls) x = session calls (called call x)

module _ {R : Type 0} (ch : Channels R) (lg : Log R) where
  -- What holds after each call.
  abbrev Goes : Session R → Type 0
  Goes (live d a s) = Flows ch lg d a s
  Goes (stopped d a s) = FailedAt ch lg d a s.st
  Goes panicked = ⊥

  went-Goes :
      {A : Type 0} (P : A → ReadWriteRtt R → Type 0) (d a : Bytes) (x : Polled R A)
      (next : A → Bytes × Bytes)
      → Serves ch lg P d a x
      → ((v : A) (s : ReadWriteRtt R) → P v s → Flows ch lg (d ++ (next v).0) (a ++ (next v).1) s)
      → Goes (went x d a next)
  unfolding went
  went-Goes P d a (gives v s) next h k = k v s h
  went-Goes P d a (waits s) next h k = h
  went-Goes P d a (fails s) next h k = h
  went-Goes P d a (unfinished s) next h k = h
  went-Goes P d a panics next h k = h

  -- Of what the terminal channel has given all but the last bytes have reached the reader, and of what
  -- the writer wrote the down channel has taken all but the last bytes; the rest is at most 1,024 bytes
  -- each.
  abbrev pub IsBehind : Bytes → Bytes → R → Type 0
  IsBehind d a r =
      (unread : Bytes) × (unsent : Bytes) × (lg.received r ≡ d ++ unread)
      × (a ≡ lg.sent r ++ unsent)
      × (length unread ≤ 1024)
      × (length unsent ≤ 1024)

  abbrev IsStreamIn : Bytes → Bytes → Access R → Type 0
  IsStreamIn d a error = Breaks ch lg d a
  IsStreamIn d a (accessed b sr sw r out) = IsBehind d a r

  -- The same of the channels behind an access, whose outcome no poll has taken yet, unless it has failed.
  abbrev pub IsStreamAt : Bytes → Bytes → Rt R → Type 0
  IsStreamAt d a (idle b r dr dw) = IsBehind d a r
  IsStreamAt d a (access sp finished) = (finished ≡ false) × IsStreamIn d a sp.fut
  IsStreamAt d a invalid = ⊥

  abbrev pub IsStream : Session R → Type 0
  IsStream (live d a s) = IsStreamAt d a s.st
  IsStream (stopped d a s) = FailedAt ch lg d a s.st
  IsStream panicked = ⊥

  Holds-IsBehind : (d a : Bytes) (b : Bufs) (r : R) → Holds ch lg d a b r → IsBehind d a r
  Holds-IsBehind d a b r (v, e, f, m, n) = (
    unread b,
    unsent b,
    e,
    f,
    omega (arith, length-slice b.read_pos b.read_len b.read v.read_len_le, v.read_len_le, m),
    omega (arith, length-slice b.write_pos b.write_len b.write v.write_len_le, v.write_len_le, n),
  )

  Awaits-IsStreamIn : (d a : Bytes) (x : Access R) → Awaits ch lg d a x → IsStreamIn d a x
  Awaits-IsStreamIn d a error h = h
  Awaits-IsStreamIn d a (accessed b sr sw r out) h = Holds-IsBehind d a b r h

  FlowsAt-IsStreamAt : (d a : Bytes) (st : Rt R) → FlowsAt ch lg d a st → IsStreamAt d a st
  FlowsAt-IsStreamAt d a (idle b r dr dw) h = Holds-IsBehind d a b r h
  FlowsAt-IsStreamAt d a (access sp finished) (e, n, h) = (e, Awaits-IsStreamIn d a sp.fut h)
  FlowsAt-IsStreamAt d a invalid h = elim h [ ]

  Goes-IsStream : (x : Session R) → Goes x → IsStream x
  Goes-IsStream (live d a s) h = FlowsAt-IsStreamAt d a s.st h
  Goes-IsStream (stopped d a s) h = h
  Goes-IsStream panicked h = elim h [ ]

  pub new-Flows : (r : R) → lg.received r ≡ [] → lg.sent r ≡ [] → Flows ch lg [] [] (new r)
  new-Flows r e f = (
    record {
      read_pos_le = omega arith;
      read_len_le = omega arith;
      write_pos_le = omega arith;
      write_len_le = omega arith;
    },
    e,
    sym (append-nil (lg.sent r) ∙ f),
    length-replicate {A = ℕ} 1024 0,
    length-replicate {A = ℕ} 1024 0,
  )

module _ {R : Type 0} (ch : Channels R) (lg : Log R) (law : IsChannels ch lg) where
  called-Goes : (call : Call) (x : Session R) → Goes ch lg x → Goes ch lg (called ch call x)
  unfolding called
  called-Goes (read room w answers) (live d a s) h =
      went-Goes ch lg (Reads ch lg d a room) d a _ _
        (poll_read-Serves ch lg law d a room w answers s h)
        (λ bs s' k. subst (λ a'. Flows ch lg (d ++ bs) a' s') (sym (append-nil a)) k.0)
  called-Goes (write buf w answers) (live d a s) h =
      went-Goes ch lg (Writes ch lg d a buf) d a _ _
        (poll_write-Serves ch lg law d a buf w answers s h)
        (λ n s' k. subst (λ d'. Flows ch lg d' (a ++ take n buf) s') (sym (append-nil d)) k.0)
  called-Goes (flush w answers) (live d a s) h =
      went-Goes ch lg (Flushes ch lg d a) d a _ _ (poll_flush-Serves ch lg law d a w answers s h)
        (λ u s' k.
          subst (λ d'. Flows ch lg d' (a ++ []) s') (sym (append-nil d))
            (subst (λ a'. Flows ch lg d a' s') (sym (append-nil a)) k.0))
  called-Goes call (stopped d a s) h = h
  called-Goes call panicked h = h

  session-Goes :
      (calls : List Call) (x : Session R) → Goes ch lg x → Goes ch lg (session ch calls x)
  unfolding session
  session-Goes [] x h = h
  session-Goes (call ∷ calls) x h = session-Goes calls _ (called-Goes call x h)

  -- Whatever polls a reader and a writer make of a new link to the probe, over which nothing has passed, in
  -- whatever order, and whenever the accesses and delays are over: none panics; and as long as no access
  -- has failed, the reader gets the bytes that the terminal channel gives, in order, and the down channel
  -- takes those that the writer wrote, less at most the last 1,024 of each. An access and a poll fail only
  -- where a reading or a writing of the channels does, and what was got and taken up to there is a head
  -- of what was given and written.
  pub session-IsStream :
      (calls : List Call) (r : R)
      → lg.received r ≡ []
      → lg.sent r ≡ []
      → IsStream ch lg (session ch calls (live [] [] (new r)))
  session-IsStream calls r e f =
      Goes-IsStream ch lg (session ch calls (live [] [] (new r)))
        (session-Goes calls (live [] [] (new r)) (new-Flows ch lg r e f))
