-- ===== src/Futures.antt =====
-- The asynchronous helpers of src/utils/futures.rs. A reader is the list of what its polls will give,
-- as in src/proxy/targetlink/slip.rs: an empty buffer is the end of the file.
pub mod Retry
pub mod Find
pub mod ReadExact
pub mod Overlap
pub mod Skip
pub mod Wake
use farcri_rs.Prelude.{
  ℕ, zero, suc, ◌+◌, ◌-◌, ◌*◌, min, Bool, true, false, ◌&&◌, Option, none, some, List, [], ◌∷◌,
  ◌++◌, length, get_elem?, set, take, drop, replicate, ltb, leb, ◌==◌, if◌then◌else◌, Bytes,
}
use farcri_rs.Buffer.{overwrite}
use farcri_rs.Slip.{Fill, buffer, fill_error, fill_pending, put_back}

pub data Attempt (T E : Type 0) : Type 0 where
  ok : T → Attempt T E
  err : E → Attempt T E

module _ {T E : Type 0} where
  -- What follows the `n`-th call of `f`: a retry, if `count` is not 0 when it is counted down.
  attempted : Attempt T E → ℕ → ℕ → (ℕ → Attempt T E × ℕ) → Attempt T E × ℕ
  attempted (ok x) n count retry = (ok x, suc n)
  attempted (err e) n zero retry = (err e, suc n)
  attempted (err e) n (suc count) retry = retry count

  -- The loop, where `count` is one more than here: the result, and how many calls of `f` were made.
  unfoldable pub retry_loop : (ℕ → Attempt T E) → ℕ → ℕ → Attempt T E × ℕ
  unfolding attempted
  retry_loop f n zero = attempted (f n) n zero (λ _. (f n, suc n))
  retry_loop f n (suc count) = attempted (f n) n (suc count) (λ _. retry_loop f (suc n) count)

  -- `retry_on_fail`, of an `f` that gives `f n` when it is called for the n-th time.
  unfoldable pub retry_on_fail : (ℕ → Attempt T E) → Attempt T E × ℕ
  unfolding retry_loop
  retry_on_fail f = retry_loop f 0 7

-- Does the window at the head of the haystack equal the needle?
unfoldable pub window_eq : Bytes → Bytes → Bool
window_eq xs [] = true
window_eq [] (n ∷ ns) = false
window_eq (x ∷ xs) (n ∷ ns) = x == n && window_eq xs ns

abbrev pub next_place : Option ℕ → Option ℕ
next_place none = none
next_place (some i) = some (suc i)

-- `slice_find`, for a needle that is not empty.
unfoldable pub slice_find : Bytes → Bytes → Option ℕ
unfolding window_eq
slice_find [] needle = none
slice_find (x ∷ xs) needle =
    if window_eq (x ∷ xs) needle then some 0 else next_place (slice_find xs needle)

-- What `read_exact` of the third-party crate tokio gives: the bytes with what is left in the reader.
pub data Exact : Type 0 where
  exact : Bytes → List Fill → Exact
  unexpected_eof : Exact
  exact_failed : ℕ → Exact
  exact_waits : Exact

-- What `async_buf_read_skip_until_pattern` gives, with what is left in the reader.
pub data Skipped : Type 0 where
  found : List Fill → Skipped
  not_found : Skipped
  failed : ℕ → Skipped
  waits : Skipped

-- `overlap` with the head of `buf` in its second half.
abbrev pub filled : ℕ → Bytes → Bytes → Bytes
filled p overlap buf = overwrite p (take (min (length buf) p) buf) overlap

-- `overlap` for the next turn.
abbrev pub kept : ℕ → Bytes → Bytes → Bytes
kept p overlap buf =
    if leb (length buf) p
    then overwrite 0 (drop (length overlap - p) overlap) overlap
    else overwrite 0 (drop (length buf - p) buf) overlap

-- What a turn makes of its two searches.
searched : ℕ → Option ℕ → Option ℕ → Bytes → List Fill → Skipped → Skipped
searched p (some i) o buf r next = found (put_back (drop (i + 1) buf) r)
searched p none (some i) buf r next = found (put_back (drop (i + (p + 1)) buf) r)
searched p none none buf r next = next

-- The loop, for a pattern of `p + 1` bytes.
unfoldable pub skip_loop : ℕ → Bytes → Bytes → List Fill → Skipped
unfolding searched slice_find
skip_loop p pattern overlap [] = waits
skip_loop p pattern overlap (fill_error e ∷ r) = failed e
skip_loop p pattern overlap (fill_pending ∷ r) = skip_loop p pattern overlap r
skip_loop p pattern overlap (buffer [] ∷ r) = not_found
skip_loop p pattern overlap (buffer (b ∷ bs) ∷ r) =
    let buf = b ∷ bs in
    let overlap' = filled p overlap buf in
    searched p (slice_find (take (p + min (length buf) p) overlap') pattern)
      (slice_find buf pattern) buf r (skip_loop p pattern (kept p overlap' buf) r)

started : ℕ → Bytes → Exact → Skipped
unfolding skip_loop
started p pattern (exact bs r) = skip_loop p pattern (bs ++ replicate p 0) r
started p pattern unexpected_eof = not_found
started p pattern (exact_failed e) = failed e
started p pattern exact_waits = waits

-- `async_buf_read_skip_until_pattern`, for a pattern that is not empty.
unfoldable pub skip_until_pattern : (ℕ → List Fill → Exact) → Bytes → List Fill → Skipped
unfolding started
skip_until_pattern read_exact pattern r =
    let p = length pattern - 1 in started p pattern (read_exact p r)

-- `Spmc`: the inner future, the waker in the slot of each consumer, and who polls the future. A waker
-- is named by a number, and two of them wake the same task if they are equal.
pub record Spmc (Fut : Type 0) : Type 0 where
  pub fut : Fut
  pub wakers : List (Option ℕ)
  pub active_consumer_index : Option ℕ

-- The output with the wakers that are woken; or `Pending`.
pub data SpmcPoll (Fut Output : Type 0) : Type 0 where
  ready : Output → List ℕ → SpmcPoll Fut Output
  pending : Spmc Fut → SpmcPoll Fut Output
  panicked : SpmcPoll Fut Output

abbrev pub taken : List (Option ℕ) → List ℕ
taken [] = []
taken (none ∷ ws) = taken ws
taken (some w ∷ ws) = w ∷ taken ws

abbrev pub get_or_insert : Option ℕ → ℕ → ℕ
get_or_insert none c = c
get_or_insert (some a) c = a

-- `None` if the waker in the cell does not wake the task of `w`: then the cell is set.
abbrev pub registered : Option (Option ℕ) → ℕ → ℕ → List (Option ℕ) → List (Option ℕ)
registered (some (some w')) w c ws = if w' == w then ws else set ws c (some w)
registered _ w c ws = set ws c (some w)

abbrev pub spmc_new : {Fut : Type 0} → ℕ → Fut → Spmc Fut
spmc_new n fut = record { fut = fut; wakers = replicate n none; active_consumer_index = none }

module _ {Fut Output : Type 0} where
  -- The active consumer's poll, given that of the inner future.
  unfoldable pub polled_inner : Option Output × Fut → Spmc Fut → SpmcPoll Fut Output
  polled_inner (some x, fut) s = ready x (taken s.wakers)
  polled_inner (none, fut) s = pending (record s { fut = fut })

  -- `Spmc::poll`, by a consumer with a waker.
  unfoldable pub spmc_poll : (Fut → Option Output × Fut) → ℕ → ℕ → Spmc Fut → SpmcPoll Fut Output
  unfolding polled_inner
  spmc_poll poll c w s =
      let active = get_or_insert s.active_consumer_index c in
      let s' = record s { active_consumer_index = some active } in
      if ltb c (length s.wakers)
      then (if c == active
          then polled_inner (poll s.fut) s'
          else pending (record s' { wakers = registered (get_elem? s.wakers c) w c s.wakers }))
      else panicked
