-- ===== src/Proxy/DumbFront.antt =====
-- The front-end without cargo-criterion: src/proxy/dumbfront.rs, with the links as in ccfront.rs.
use farcri_rs.Prelude.{ℕ, zero, suc, ◌%◌, List, [], ◌∷◌, map, length, ◌≡◌, refl, ap}
use farcri_rs.Time.{u64_mod}
use farcri_rs.Protocol.{
  DownstreamMessage, continue, instant, a_continue, an_instant, kind, UpstreamMessage,
  beginning_benchmark_group, finished_benchmark_group, beginning_benchmark, skipping_benchmark,
  warmup, measurement_start, measurement_complete, end, get_instant,
}
use farcri_rs.Target.Replies.{expected}

-- `run_frontend` over the messages that the target sends, with the readings of the clock and how many
-- there were: what it sends to the target.
unfoldable pub run_frontend : (ℕ → ℕ) → ℕ → List UpstreamMessage → List DownstreamMessage
run_frontend clock n [] = []
run_frontend clock n (get_instant ∷ ms) =
    instant (clock n % u64_mod) ∷ run_frontend clock (suc n) ms
run_frontend clock n (measurement_complete _ _ _ ∷ ms) = continue ∷ run_frontend clock n ms
run_frontend clock n (end ∷ ms) = []
run_frontend clock n (_ ∷ ms) = run_frontend clock n ms

-- The messages up to `End`, less those that finish a group.
abbrev pub without_finished_groups : List UpstreamMessage → List UpstreamMessage
without_finished_groups [] = []
without_finished_groups (end ∷ ms) = []
without_finished_groups (finished_benchmark_group ∷ ms) = without_finished_groups ms
without_finished_groups (m ∷ ms) = m ∷ without_finished_groups ms

-- The times in some replies, and readings of the clock, each as a `u64`.
abbrev pub times : List DownstreamMessage → List ℕ
times [] = []
times (instant t ∷ ms) = t ∷ times ms
times (m ∷ ms) = times ms

abbrev pub readings : (ℕ → ℕ) → ℕ → ℕ → List ℕ
readings clock n zero = []
readings clock n (suc k) = clock n % u64_mod ∷ readings clock (suc n) k

-- This front-end sends, in order and up to `End`, the replies that the target waits for behind all its
-- messages but those that finish a group: the `Continue` for a finished group is never sent. The times
-- that it sends are the readings of its clock, one after the other.
pub run_frontend-unanswered :
    (clock : ℕ → ℕ) (n : ℕ) (ms : List UpstreamMessage)
    → let replies = run_frontend clock n ms in
      (map kind replies ≡ expected (without_finished_groups ms))
      × (times replies ≡ readings clock n (length (times replies)))
unfolding run_frontend
run_frontend-unanswered clock n [] = (refl, refl)
run_frontend-unanswered clock n (get_instant ∷ ms) =
    let (kinds, read) = run_frontend-unanswered clock (suc n) ms in
    (ap (λ rs. an_instant ∷ rs) kinds, ap (λ ts. clock n % u64_mod ∷ ts) read)
run_frontend-unanswered clock n (measurement_complete _ _ _ ∷ ms) =
    let (kinds, read) = run_frontend-unanswered clock n ms in
    (ap (λ rs. a_continue ∷ rs) kinds, read)
run_frontend-unanswered clock n (finished_benchmark_group ∷ ms) = run_frontend-unanswered clock n ms
run_frontend-unanswered clock n (end ∷ ms) = (refl, refl)
run_frontend-unanswered clock n (beginning_benchmark_group _ ∷ ms) =
    run_frontend-unanswered clock n ms
run_frontend-unanswered clock n (beginning_benchmark _ ∷ ms) = run_frontend-unanswered clock n ms
run_frontend-unanswered clock n (skipping_benchmark _ ∷ ms) = run_frontend-unanswered clock n ms
run_frontend-unanswered clock n (warmup _ ∷ ms) = run_frontend-unanswered clock n ms
run_frontend-unanswered clock n (measurement_start _ _ _ _ ∷ ms) =
    run_frontend-unanswered clock n ms
