-- ===== src/Target/Comm.antt =====
-- `Comm::write` of src/target/logger_rtt.rs, below `BencherIo::write` of src/target/mod.rs: the loop that hands
-- bytes to the up channel until it has taken them all. The channel, of the third-party crate
-- rtt_target, is the list of how many bytes its writes will take.
use farcri_rs.Prelude.{
  ℕ, ◌<◌, ◌≤◌, min, List, [], ◌∷◌, ◌++◌, length, take, drop, Bytes, ◌≡◌, refl, ap, ◌∙◌, arith,
  append_assoc, take-append-drop, length-drop,
}

-- What the channel has taken; or the loop goes on behind the answers, with what is left.
pub data Written : Type 0 where
  written : Bytes → Written
  spins : (taken left : Bytes) → Written

abbrev pub behind : Bytes → Written → Written
behind bs (written cs) = written (bs ++ cs)
behind bs (spins cs left) = spins (bs ++ cs) left

-- A write takes no more than it is given.
unfoldable pub write : List ℕ → Bytes → Written
write answers [] = written []
write [] (b ∷ bs) = spins [] (b ∷ bs)
write (n ∷ ns) (b ∷ bs) =
    let bytes_written = min n (length (b ∷ bs)) in
    behind (take bytes_written (b ∷ bs)) (write ns (drop bytes_written (b ∷ bs)))

-- Each answer is not 0.
abbrev pub Progress : List ℕ → Type 0
Progress [] = Unit {0}
Progress (n ∷ ns) = (0 < n) × Progress ns

-- Nothing is lost or sent twice.
abbrev pub Sends : Bytes → Written → Type 0
Sends b (written taken) = taken ≡ b
Sends b (spins taken left) = taken ++ left ≡ b

behind-Sends :
    (n : ℕ) (b : Bytes) (w : Written) → Sends (drop n b) w → Sends b (behind (take n b) w)
behind-Sends n b (written taken) h = ap (λ x. take n b ++ x) h ∙ take-append-drop n b
behind-Sends n b (spins taken left) h =
    append_assoc (take n b) taken left ∙ ap (λ x. take n b ++ x) h ∙ take-append-drop n b

write-Sends : (answers : List ℕ) (b : Bytes) → Sends b (write answers b)
unfolding write
write-Sends answers [] = refl
write-Sends [] (b ∷ bs) = refl
write-Sends (n ∷ ns) (b ∷ bs) =
    let k = min n (length (b ∷ bs)) in
    behind-Sends k (b ∷ bs) (write ns (drop k (b ∷ bs))) (write-Sends ns (drop k (b ∷ bs)))

-- If each of its writes takes something, and there are as many of them as bytes, then the loop ends, and
-- the channel has taken just the bytes, in order.
pub write-written :
    (answers : List ℕ) (b : Bytes)
    → Progress answers
    → length b ≤ length answers
    → write answers b ≡ written b
unfolding write
write-written answers [] p h = refl
write-written [] (b ∷ bs) p h = absurd (omega arith)
write-written (n ∷ ns) (b ∷ bs) (pos, p) h =
    let k = min n (length (b ∷ bs)) in
    let rest = drop k (b ∷ bs) in
    ap (behind (take k (b ∷ bs)))
      (write-written ns rest p (omega (arith, h, pos, length-drop k (b ∷ bs))))
    ∙ ap written (take-append-drop k (b ∷ bs))
