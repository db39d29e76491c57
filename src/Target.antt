-- ===== src/Target.antt =====
-- The target as the benchmark code sees it: the messages of `ProxyLink::send` and `recv`, and the
-- counter that `BencherIo::now` reads. A call may panic, or wait for a message that does not come.
pub mod Replies
pub mod Effects
pub mod SysTick
pub mod Comm
use farcri_rs.Prelude.{
  ℕ, zero, suc, ◌+◌, Bool, true, false, Option, none, some, List, [], ◌∷◌, ◌++◌, Bytes,
}
use farcri_rs.Time.{Instant}
use farcri_rs.Protocol.{
  DownstreamMessage, greeting, continue, instant, UpstreamMessage, get_instant, Mode,
}

pub record Target : Type 0 where
  pub sent : List UpstreamMessage
  pub incoming : List DownstreamMessage
  pub now : ℕ → ℕ  -- what the counter shows at its reads, in order
  pub reads : ℕ  -- how often it was read
  pub invocations : ℕ  -- how often the closure under test was called
  pub executions : ℕ  -- how often `iter` ran its routine

pub data Outcome (A : Type 0) : Type 0 where
  done : A → Target → Outcome A
  panicked : Outcome A
  waiting : Target → Outcome A
  out_of_fuel : Outcome A

abbrev pub M : Type 0 → Type 0
M A = Target → Outcome A

abbrev pub and_then : {A B : Type 0} → Outcome A → (A → M B) → Outcome B
and_then (done a t) f = f a t
and_then panicked f = panicked
and_then (waiting t) f = waiting t
and_then out_of_fuel f = out_of_fuel

infixl 5 ◌>>=◌ ◌>>◌
abbrev pub ◌>>=◌ : {A B : Type 0} → M A → (A → M B) → M B
◌>>=◌ m f t = and_then (m t) f

abbrev pub ◌>>◌ : {B : Type 0} → M (Unit {0}) → M B → M B
m >> k = m >>= λ _. k

abbrev pub pure : {A : Type 0} → A → M A
pure a t = done a t

abbrev pub panic : {A : Type 0} → M A
panic t = panicked

unfoldable pub send : UpstreamMessage → M (Unit {0})
send msg t = done tt (record t { sent = t.sent ++ msg ∷ [] })

unfoldable pub receive : List DownstreamMessage → Target → Outcome DownstreamMessage
receive [] t = waiting t
receive (msg ∷ rest) t = done msg (record t { incoming = rest })

unfoldable pub recv : M DownstreamMessage
unfolding receive
recv t = receive t.incoming t

unfoldable pub expect_instant : DownstreamMessage → M Instant
expect_instant (instant x) = pure x
expect_instant _ = panic

-- `Measurement::now`
unfoldable pub now : M Instant
unfolding send recv expect_instant
now = do send get_instant; msg ← recv; expect_instant msg

-- `Measurement::value`
unfoldable pub value : M ℕ
value t = done (t.now t.reads) (record t { reads = suc t.reads })

unfoldable pub expect_continue : DownstreamMessage → M (Unit {0})
expect_continue continue = pure tt
expect_continue _ = panic

-- "Wait for a `Continue` message"
unfoldable pub wait_continue : M (Unit {0})
unfolding recv expect_continue
wait_continue = do msg ← recv; expect_continue msg
