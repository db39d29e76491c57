-- ===== src/Rtt/Buffers.antt =====
-- What an access to the channels does to the two buffers of src/proxy/targets/probe_rs.rs.
use farcri_rs.Prelude.{
  ℕ, zero, suc, ◌+◌, ◌-◌, ◌≤◌, Bool, true, false, Option, none, some, [], ◌∷◌, ◌++◌, length, take,
  drop, leb, ◌==◌, if◌then◌else◌, Bytes, ◌≡◌, refl, sym, ap, ◌∙◌, arith, inl, inr, Bool-cases,
  lt→ltb, append-nil,
}
use farcri_rs.Buffer.{
  slice, overwrite, length-slice, length-overwrite, slice-overwrite, drop-take_append_le,
  take-exact, slice-take,
}
use farcri_rs.Rtt.ChannelLog.{Log, IsChannels, FailsFrom}
use farcri_rs.Rtt.{
  Channels, Bufs, Access, error, accessed, Up, up_error, up_done, up_read, up_loop, wrote, down,
  rewind_read, hit_rtt_inner,
}

pub record IsValid (b : Bufs) : Type 0 where
  pub read_pos_le : b.read_pos ≤ b.read_len
  pub read_len_le : b.read_len ≤ length b.read
  pub write_pos_le : b.write_pos ≤ b.write_len
  pub write_len_le : b.write_len ≤ length b.write

-- What was received and not yet read, and what was written and not yet sent.
abbrev pub unread : Bufs → Bytes
unread b = slice b.read_pos b.read_len b.read

abbrev pub unsent : Bufs → Bytes
unsent b = slice b.write_pos b.write_len b.write

slice_before :
    (start at : ℕ) (bs buf : Bytes)
    → start ≤ at
    → at ≤ length buf
    → slice start at (overwrite at bs buf) ≡ slice start at buf
slice_before start at bs buf h k =
    ap (take (at - start)) (drop-take_append_le start at buf _ h k)
    ∙ take-exact (at - start) (slice start at buf) _ (sym (length-slice start at buf k))

pub slice_nil : (start stop : ℕ) (buf : Bytes) → stop ≤ start → slice start stop buf ≡ []
slice_nil start stop buf h =
    let p : stop - start ≡ 0 = omega arith in ap (λ n. take n (drop start buf)) p

-- The capacities of the buffers do not change.
abbrev pub SameRoom : Bufs → Bufs → Type 0
SameRoom b b' = (length b'.read ≡ length b.read) × (length b'.write ≡ length b.write)

rewind_read_lem :
    (b : Bufs)
    → IsValid b
    → IsValid (rewind_read b)
      × (unread (rewind_read b) ≡ unread b)
      × (unsent (rewind_read b) ≡ unsent b)
      × SameRoom b (rewind_read b)
rewind_read_lem b v = elim (Bool-cases (leb b.read_len b.read_pos)) [
  | inl caught ↦ rw caught (
    record {
      read_pos_le = omega arith;
      read_len_le = omega arith;
      write_pos_le = v.write_pos_le;
      write_len_le = v.write_len_le;
    },
    sym (slice_nil b.read_pos b.read_len b.read (ground arith)),
    refl,
    (refl, refl),
  )
  | inr more ↦ rw more (v, refl, refl, (refl, refl))
]

-- What the terminal channel has given is unread behind what was unread, and the down channel has taken
-- the head of what was unsent, of which the rest is still unsent.
abbrev pub Passes : {R : Type 0} → Log R → Bufs → R → Bufs → R → Type 0
Passes lg b r b' r' =
    IsValid b'
    × ((t : Bytes) × (lg.received r' ≡ lg.received r ++ t) × (unread b' ≡ unread b ++ t))
    × ((w : Bytes) × (lg.sent r' ≡ lg.sent r ++ w) × (unsent b ≡ w ++ unsent b'))
    × SameRoom b b'

abbrev pub Accesses : {R : Type 0} → Channels R → Log R → Bufs → R → Access R → Type 0
Accesses ch lg b r error = FailsFrom ch lg r
Accesses ch lg b r (accessed b' sr sw r' out) = Passes lg b r b' r'

module _ {R : Type 0} (ch : Channels R) (lg : Log R) (law : IsChannels ch lg) where
  -- Behind the loop over the up channels: what was taken from the terminal channel is unread behind
  -- what was unread before.
  abbrev Received : Bufs → R → Up R → Type 0
  Received b r up_error = FailsFrom ch lg r
  Received b r (up_done b' stalled r' out) =
      IsValid b'
      × ((t : Bytes) × (lg.received r' ≡ lg.received r ++ t) × (unread b' ≡ unread b ++ t))
      × (lg.sent r' ≡ lg.sent r)
      × (unsent b' ≡ unsent b)
      × SameRoom b b'

  Received-trans :
      (b b₀ : Bufs) (r r₀ : R) (x : Up R)
      → (unread b₀ ≡ unread b) × (unsent b₀ ≡ unsent b) × SameRoom b b₀
      → (lg.received r₀ ≡ lg.received r) × (lg.sent r₀ ≡ lg.sent r)
      → Received b₀ r₀ x
      → Received b r x
  Received-trans b b₀ r r₀ up_error e (x, y) (r₁, (t, p), q, f) =
      (r₁, (t, p ∙ ap (λ l. l ++ t) x), q ∙ y, f)
  Received-trans b b₀ r r₀ (up_done b' stalled r' out) (e, f, (n, m)) (x, y)
        (v, (t, p, g), q, h, (k, l)) =
      (v, (t, p ∙ ap (λ l. l ++ t) x, g ∙ ap (λ l. l ++ t) e), q ∙ y, h ∙ f, (k ∙ n, l ∙ m))

  up_read-Received :
      (i : ℕ) (r : R) (b : Bufs) (stalled : Bool) (out : Bytes) (o : Option Bytes × R)
      (next : Bufs → Bool → Bytes → R → Up R)
      → IsValid b
      → ch.read i (length b.read - b.read_len) r ≡ o
      → ((b' : Bufs) (s : Bool) (o' : Bytes) (r' : R)
          → IsValid b'
          → Received b' r' (next b' s o' r'))
      → Received b r (up_read ch o i b stalled out next)
  unfolding up_read
  up_read-Received i r b stalled out (none, r') next v e h = (
    r,
    ([], sym (append-nil (lg.received r))),
    refl,
    inl (i, length b.read - b.read_len, ap (λ o. o.0) e),
  )
  up_read-Received i r b stalled out (some [], r') next v e h =
      Received-trans b b r r' _ (refl, refl, (refl, refl))
        (
          law.read_gives i _ r [] r' e
              ∙ ap (λ l. lg.received r ++ l) (if_nil (i == 1))
              ∙ append-nil (lg.received r),
          law.read_keeps i _ r [] r' e,
        )
        (h b _ out r' v)
    where
      if_nil : (c : Bool) → ◌≡◌ {A = Bytes} (if c then [] else []) []
      if_nil true = refl
      if_nil false = refl
  up_read-Received i r b stalled out (some (x ∷ xs), r') next v e h =
      let fits = law.read_fits i _ r (x ∷ xs) r' e in
      let gives = law.read_gives i _ r (x ∷ xs) r' e in
      let low : b.read_len ≤ length b.read = v.read_len_le in
      let n = length-overwrite b.read_len (x ∷ xs) b.read (omega (arith, v.read_len_le)) in
      elim (Bool-cases (i == 1)) [
        | inl terminal ↦ rw terminal (
          record {
            read_pos_le = omega (arith, v.read_pos_le);
            read_len_le = omega (arith, n);
            write_pos_le = v.write_pos_le;
            write_len_le = v.write_len_le;
          },
          (
            x ∷ xs,
            gives ∙ ap (λ c. lg.received r ++ (if c then x ∷ xs else [])) terminal,
            slice-overwrite b.read_pos b.read_len (x ∷ xs) b.read v.read_pos_le v.read_len_le,
          ),
          law.read_keeps i _ r (x ∷ xs) r' e,
          refl,
          (n, refl),
        )
        | inr log ↦ rw log (
            Received-trans b (record b { read = overwrite b.read_len (x ∷ xs) b.read }) r r' _
              (
                slice_before b.read_pos b.read_len (x ∷ xs) b.read v.read_pos_le v.read_len_le,
                refl,
                (n, refl),
              )
              (
                gives
                    ∙ ap (λ c. lg.received r ++ (if c then x ∷ xs else [])) log
                    ∙ append-nil (lg.received r),
                law.read_keeps i _ r (x ∷ xs) r' e,
              )
              (h _ stalled _ r' (record {
                read_pos_le = v.read_pos_le;
                read_len_le = omega (arith, n, v.read_len_le);
                write_pos_le = v.write_pos_le;
                write_len_le = v.write_len_le;
              })))
      ]

  nothing-Received :
      (b : Bufs) (stalled : Bool) (r : R) (out : Bytes)
      → IsValid b
      → Received b r (up_done b stalled r out)
  nothing-Received b stalled r out v = (
    v,
    ([], sym (append-nil (lg.received r)), sym (append-nil (unread b))),
    refl,
    refl,
    (refl, refl),
  )

  up_loop-Received :
      (n i : ℕ) (b : Bufs) (stalled : Bool) (out : Bytes) (r : R)
      → IsValid b
      → Received b r (up_loop ch n i b stalled out r)
  unfolding up_loop
  up_loop-Received zero i b stalled out r v = nothing-Received b stalled r out v
  up_loop-Received (suc n) i b stalled out r v =
      let step =
        up_read-Received i r b stalled out _ (up_loop ch n (suc i)) v refl
          (λ b' s o' r' v'. up_loop-Received n (suc i) b' s o' r' v') in
      elim (Bool-cases (leb (length b.read) b.read_len)) [
        | inl full ↦ rw full (nothing-Received b stalled r out v)
        | inr room ↦ rw room step
      ]

  wrote-Accesses :
      (b₀ b : Bufs) (stalled : Bool) (out : Bytes) (r₀ r : R) (o : Option ℕ × R)
      → IsValid b
      → Received b₀ r₀ (up_done b stalled r out)
      → ch.write (unsent b) r ≡ o
      → Accesses ch lg b₀ r₀ (wrote ch o b stalled out)
  unfolding wrote
  wrote-Accesses b₀ b stalled out r₀ r (none, r') v (v', (t, p, g), q, h, k) e =
      (r, (t, p), q, inr (unsent b, ap (λ o. o.0) e))
  wrote-Accesses b₀ b stalled out r₀ r (some n, r') v (v', (t, p, g), q, h, k) e =
      let fits = law.write_fits (unsent b) r n r' e in
      let len = length-slice b.write_pos b.write_len b.write v.write_len_le in
      let a : b.write_pos + n ≤ b.write_len = omega (arith, v.write_pos_le) in
      (
        record {
          read_pos_le = v.read_pos_le;
          read_len_le = v.read_len_le;
          write_pos_le = a;
          write_len_le = v.write_len_le;
        },
        (t, law.write_keeps (unsent b) r n r' e ∙ p, g),
        (
          take n (unsent b),
          law.write_takes (unsent b) r n r' e ∙ ap (λ l. l ++ take n (unsent b)) q,
          sym h ∙ slice-take b.write_pos n b.write_len b.write a,
        ),
        k,
      )

  down-Accesses : (b : Bufs) (r : R) (u : Up R) → Received b r u → Accesses ch lg b r (down ch u)
  unfolding down
  down-Accesses b r up_error h = h
  down-Accesses b r₀ (up_done b' stalled r out) (v, (t, p, g), q, h, k) =
      elim (Bool-cases (leb b'.write_len b'.write_pos)) [
        | inl empty ↦ rw empty (v, (t, p, g), ([], q ∙ sym (append-nil (lg.sent r₀)), sym h), k)
        | inr pending ↦
            rw (pending, lt→ltb 0 (ch.down_channels r) (law.has_down r))
              (wrote-Accesses b b' stalled out r₀ r _ v (v, (t, p, g), q, h, k) refl)
      ]

  -- An access fails only if, behind some of its readings, a reading or a writing of the channels fails.
  -- Otherwise it leaves all indices in bounds and both buffers at their sizes; what the terminal channel
  -- has given meanwhile is unread behind what was unread, and what the down channel has taken is the head
  -- of what was unsent, of which the rest is still unsent.
  pub hit_rtt_inner-Accesses :
      (b : Bufs) (r : R) → IsValid b → Accesses ch lg b r (hit_rtt_inner ch b r)
  unfolding hit_rtt_inner
  hit_rtt_inner-Accesses b r v =
      let (v', g, h, k) = rewind_read_lem b v in
      down-Accesses b r _ (
        Received-trans b (rewind_read b) r r _ (g, h, k) (refl, refl)
          (up_loop-Received (ch.up_channels r) 0 (rewind_read b) false [] r v'))
