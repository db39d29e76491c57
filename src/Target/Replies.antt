-- ===== src/Target/Replies.antt =====
-- The order of the messages that the target sends, and of the messages it waits for.
use farcri_rs.Prelude.{
  Bool, true, false, if◌then◌else◌, Option, none, some, List, [], ◌∷◌, ◌++◌, map, ◌≡◌, refl, sym,
  ap, ◌∙◌, append-nil, append_assoc,
}
use farcri_rs.Protocol.{
  DownstreamMessage, Reply, a_continue, an_instant, kind, UpstreamMessage,
  beginning_benchmark_group, finished_benchmark_group, beginning_benchmark, skipping_benchmark,
  warmup, measurement_start, measurement_complete, end, get_instant,
}
use farcri_rs.Target.{
  Target, Outcome, done, panicked, waiting, out_of_fuel, M, and_then, ◌>>=◌, pure, panic,
}

-- What is open: nothing, a group, or a benchmark in it; or the target has sent `End`.
pub data Phase : Type 0 where
  idle in_group in_benchmark ended : Phase

-- The phase behind a message, if the message may be sent in the phase.
abbrev pub advance : Phase → UpstreamMessage → Option Phase
advance idle (beginning_benchmark_group _) = some in_group
advance idle end = some ended
advance in_group finished_benchmark_group = some idle
advance in_group (beginning_benchmark _) = some in_benchmark
advance in_group (skipping_benchmark _) = some in_group
advance in_benchmark (warmup _) = some in_benchmark
advance in_benchmark (measurement_start _ _ _ _) = some in_benchmark
advance in_benchmark (measurement_complete _ _ _) = some in_group
advance ended get_instant = none
advance p get_instant = some p
advance _ _ = none

abbrev pub from : Option Phase → (Phase → Option Phase) → Option Phase
from none k = none
from (some p) k = k p

abbrev pub run : Phase → List UpstreamMessage → Option Phase
run p [] = some p
run p (m ∷ ms) = from (advance p m) λ q. run q ms

-- The replies that messages ask for.
abbrev pub answers : UpstreamMessage → List Reply
answers get_instant = an_instant ∷ []
answers finished_benchmark_group = a_continue ∷ []
answers (measurement_complete _ _ _) = a_continue ∷ []
answers _ = []

abbrev pub expected : List UpstreamMessage → List Reply
expected [] = []
expected (m ∷ ms) = answers m ++ expected ms

-- Between two states of the target: the messages sent lead from one phase to the other, and the
-- messages received answer, in order, what was still to be answered and what was asked for.
pub record Talk (p : Phase) (owed : List Reply) (p' : Phase) (owed' : List Reply) (t t' : Target)
    : Type 0 where
  pub messages : List UpstreamMessage
  pub replies : List DownstreamMessage
  pub sends : t'.sent ≡ t.sent ++ messages
  pub receives : t.incoming ≡ replies ++ t'.incoming
  pub in_order : owed ++ expected messages ≡ map kind replies ++ owed'
  pub phases : run p messages ≡ some p'

-- A claim about the state that a call ends in, if it ends.
abbrev pub After : {A : Type 0} → (Target → Type 0) → Outcome A → Type 0
After R (done a t) = R t
After R _ = Unit {0}

-- At the end of what came, and a reply that was asked for has not come.
abbrev pub Stuck : Phase → List Reply → Target → Target → Type 0
Stuck p o t t' =
    (q : Phase) × (r : Reply) × (u : List Reply) × Talk p o q (r ∷ u) t t' × (t'.incoming ≡ [])

-- A call that returns leads to the given phase and debts; one that waits is stuck.
abbrev pub Reaches :
    {A : Type 0} → Phase → List Reply → Phase → List Reply → Target → Outcome A → Type 0
Reaches p o q u t (done a t') = Talk p o q u t t'
Reaches p o q u t (waiting t') = Stuck p o t t'
Reaches p o q u t _ = Unit {0}

-- A call that does not wait, and a claim about the state that it ends in, if it ends.
abbrev pub Matches : {A : Type 0} → (Target → Type 0) → Outcome A → Type 0
Matches R (done a t) = R t
Matches R (waiting t) = ⊥
Matches R _ = Unit {0}

pub record Talks {A : Type 0} (p : Phase) (o : List Reply) (p' : Phase) (o' : List Reply) (m : M A)
    : Type 0 where
  pub at : (t : Target) → Reaches p o p' o' t (m t)

from-from :
    (o : Option Phase) (k k' l : Phase → Option Phase) (q : Phase)
    → ((r : Phase) → k r ≡ some q → k' r ≡ l q)
    → from o k ≡ some q
    → from o k' ≡ l q
from-from none k k' l q h e = cc
from-from (some r) k k' l q h e = h r e

run-append :
    (p q : Phase) (ms ns : List UpstreamMessage) → run p ms ≡ some q → run p (ms ++ ns) ≡ run q ns
run-append p q [] ns h = cc
run-append p q (m ∷ ms) ns h =
    from-from (advance p m) (λ r. run r ms) (λ r. run r (ms ++ ns)) (λ r. run r ns) q
      (λ r e. run-append r q ms ns e) h

expected-append : (ms ns : List UpstreamMessage) → expected (ms ++ ns) ≡ expected ms ++ expected ns
expected-append [] ns = refl
expected-append (m ∷ ms) ns =
    rw (expected-append ms ns, append_assoc (answers m) (expected ms) (expected ns)) refl

pub map-kind-append :
    (xs ys : List DownstreamMessage) → map kind (xs ++ ys) ≡ map kind xs ++ map kind ys
map-kind-append [] ys = refl
map-kind-append (x ∷ xs) ys = rw (map-kind-append xs ys) refl

Talk-trans :
    {p q r : Phase} {o u v : List Reply} {a b c : Target}
    → Talk p o q u a b
    → Talk q u r v b c
    → Talk p o r v a c
Talk-trans {p} {q} {r} {o} {u} {v} {a} {b} {c} x y = record {
  messages = x.messages ++ y.messages;
  replies = x.replies ++ y.replies;
  sends = y.sends ∙ ap (λ l. l ++ y.messages) x.sends ∙ append_assoc a.sent x.messages y.messages;
  receives =
      x.receives
      ∙ ap (λ l. x.replies ++ l) y.receives
      ∙ sym (append_assoc x.replies y.replies c.incoming);
  in_order =
      ap (λ l. o ++ l) (expected-append x.messages y.messages)
      ∙ sym (append_assoc o (expected x.messages) (expected y.messages))
      ∙ ap (λ l. l ++ expected y.messages) x.in_order
      ∙ append_assoc (map kind x.replies) u (expected y.messages)
      ∙ ap (λ l. map kind x.replies ++ l) y.in_order
      ∙ sym (append_assoc (map kind x.replies) (map kind y.replies) v)
      ∙ ap (λ l. l ++ v) (sym (map-kind-append x.replies y.replies));
  phases = run-append p q x.messages y.messages x.phases ∙ y.phases;
}

pub Talk-refl : {p : Phase} {o : List Reply} {t : Target} → Talk p o p o t t
Talk-refl {p} {o} {t} = record {
  messages = [];
  replies = [];
  sends = sym (append-nil t.sent);
  receives = refl;
  in_order = append-nil o;
  phases = refl;
}

then-Talks :
    {A B : Type 0} (p q r : Phase) (o u v : List Reply) (t : Target) (x : Outcome A) (f : A → M B)
    → Reaches p o q u t x
    → ((a : A) → Talks q u r v (f a))
    → Reaches p o r v t (and_then x f)
then-Talks p q r o u v t (done a t') f h k = weaken (f a t') ((k a).at t')
  where
    weaken : {B : Type 0} (y : Outcome B) → Reaches q u r v t' y → Reaches p o r v t y
    weaken (done b t'') g = Talk-trans h g
    weaken panicked g = tt
    weaken (waiting t'') (q', r', u', g, e) = (q', r', u', Talk-trans h g, e)
    weaken out_of_fuel g = tt
then-Talks p q r o u v t panicked f h k = tt
then-Talks p q r o u v t (waiting t') f h k = h
then-Talks p q r o u v t out_of_fuel f h k = tt

pub bind-Talks :
    {A B : Type 0} {p q r : Phase} {o u v : List Reply} (m : M A) (f : A → M B)
    → Talks p o q u m
    → ((a : A) → Talks q u r v (f a))
    → Talks p o r v (m >>= f)
bind-Talks {A} {B} {p} {q} {r} {o} {u} {v} m f h k = record {
  at = λ t. then-Talks p q r o u v t (m t) f (h.at t) k;
}

pub pure-Talks : {A : Type 0} {p : Phase} {o : List Reply} (a : A) → Talks p o p o (pure a)
pure-Talks a = record { at = λ t. Talk-refl }

pub panic-Talks : {A : Type 0} {p q : Phase} {o u : List Reply} → Talks {A = A} p o q u panic
panic-Talks = record { at = λ t. tt }

pub if-Talks :
    {A : Type 0} {p q : Phase} {o u : List Reply} (b : Bool) (m n : M A)
    → Talks p o q u m
    → Talks p o q u n
    → Talks p o q u (if b then m else n)
if-Talks true m n h k = h
if-Talks false m n h k = k
