-- ===== src/Target/Effects.antt =====
-- Which messages each operation of the link of the target sends and waits for.
use farcri_rs.Prelude.{ℕ, some, List, [], ◌∷◌, ◌++◌, ◌≡◌, refl, sym, subst, ap, ◌∙◌, append-nil}
use farcri_rs.Protocol.{
  DownstreamMessage, greeting, continue, instant, Reply, a_continue, an_instant, kind,
  UpstreamMessage, get_instant,
}
use farcri_rs.Target.{
  Target, Outcome, done, panicked, waiting, out_of_fuel, M, and_then, send, recv, receive, now,
  expect_instant, value, wait_continue, expect_continue,
}
use farcri_rs.Target.Replies.{
  Phase, advance, from, expected, Reaches, Matches, Talk-refl, bind-Talks, Talk, Talks,
}

pub send-Talks :
    {p q : Phase} {o : List Reply} (m : UpstreamMessage)
    → advance p m ≡ some q
    → Talks p o q (o ++ expected (m ∷ [])) (send m)
unfolding send
send-Talks {p} {q} {o} m h = record {
  at = λ t. record {
    messages = m ∷ [];
    replies = [];
    sends = refl;
    receives = refl;
    in_order = refl;
    phases = ap (λ x. from x (λ r. some r)) h;
  };
}

-- A counter moves, or the closure is called.
pub silent-Talks :
    {A : Type 0} {p q : Phase} {o u : List Reply} (f : Target → Target) (m : M A)
    → ((t : Target) → (f t).sent ≡ t.sent)
    → ((t : Target) → (f t).incoming ≡ t.incoming)
    → Talks p o q u m
    → Talks p o q u (λ t. m (f t))
silent-Talks {A} {p} {q} {o} {u} f m h k g = record { at = λ t. go t (m (f t)) (g.at (f t)) }
  where
    moved :
        (p : Phase) (o : List Reply) (q : Phase) (u : List Reply) (t t' : Target)
        → Talk p o q u (f t) t'
        → Talk p o q u t t'
    moved p o q u t t' y = record {
      messages = y.messages;
      replies = y.replies;
      sends = y.sends ∙ ap (λ l. l ++ y.messages) (h t);
      receives = sym (k t) ∙ y.receives;
      in_order = y.in_order;
      phases = y.phases;
    }

    go : (t : Target) (x : Outcome A) → Reaches p o q u (f t) x → Reaches p o q u t x
    go t (done a t') y = moved p o q u t t' y
    go t panicked y = tt
    go t (waiting t') (q', r, u', y, e) = (q', r, u', moved p o q' (r ∷ u') t t' y, e)
    go t out_of_fuel y = tt

-- A call that takes one message, and fails unless it is the reply that comes next.
receive-Talk :
    {A : Type 0} (p : Phase) (r : Reply) (o : List Reply) (f : DownstreamMessage → M A) (t : Target)
    → ((m : DownstreamMessage) (t' : Target)
        → Matches {A = A} (λ t''. (r ≡ kind m) × (t'' ≡ t')) (f m t'))
    → (l : List DownstreamMessage) → t.incoming ≡ l
    → Reaches p (r ∷ o) p o t (and_then (receive l t) f)
unfolding receive
receive-Talk p r o f t h [] e = (p, r, o, Talk-refl, e)
receive-Talk {A} p r o f t h (m ∷ l) e = go (f m t') (h m t')
  where
    t' : Target
    t' = record t { incoming = l }

    go :
        (x : Outcome A)
        → Matches {A = A} (λ t''. (r ≡ kind m) × (t'' ≡ t')) x
        → Reaches p (r ∷ o) p o t x
    go (done a t'') (k, s) = subst (Talk p (r ∷ o) p o t) (sym s) (record {
      messages = [];
      replies = m ∷ [];
      sends = sym (append-nil t.sent);
      receives = e;
      in_order = ap (λ x. x ∷ (o ++ [])) k ∙ ap (λ x. kind m ∷ x) (append-nil o);
      phases = refl;
    })
    go panicked y = tt
    go (waiting t'') y = elim y [ ]
    go out_of_fuel y = tt

pub wait_continue-Talks : {p : Phase} {o : List Reply} → Talks p (a_continue ∷ o) p o wait_continue
unfolding wait_continue recv expect_continue
wait_continue-Talks {p} {o} = record {
  at = λ t. receive-Talk p a_continue o expect_continue t matches t.incoming refl;
}
  where
    matches :
        (m : DownstreamMessage) (t' : Target)
        → Matches {A = Unit {0}} (λ t''. (a_continue ≡ kind m) × (t'' ≡ t')) (expect_continue m t')
    matches continue t' = (refl, refl)
    matches (greeting _ _) t' = tt
    matches (instant _) t' = tt

pub now-Talks : {p : Phase} → advance p get_instant ≡ some p → Talks p [] p [] now
unfolding now recv expect_instant
now-Talks {p} h =
    bind-Talks (send get_instant) _ (send-Talks get_instant h) λ _. record {
      at = λ t. receive-Talk p an_instant [] expect_instant t matches t.incoming refl;
    }
  where
    matches :
        (m : DownstreamMessage) (t' : Target)
        → Matches {A = ℕ} (λ t''. (an_instant ≡ kind m) × (t'' ≡ t')) (expect_instant m t')
    matches (instant _) t' = (refl, refl)
    matches continue t' = tt
    matches (greeting _ _) t' = tt

pub value-Talks : {p : Phase} {o : List Reply} → Talks p o p o value
unfolding value
value-Talks {p} {o} = record {
  at = λ t. record {
    messages = [];
    replies = [];
    sends = sym (append-nil t.sent);
    receives = refl;
    in_order = append-nil o;
    phases = refl;
  };
}
