-- ===== src/Proxy/CcFront/Turns.antt =====
-- What a turn of `run_frontend` of src/proxy/ccfront.rs sends to the target.
use farcri_rs.Prelude.{
  Option, none, some, List, [], ◌∷◌, ◌++◌, map, ◌≡◌, refl, sym, ap, ◌∙◌, append-nil, Bytes,
}
use farcri_rs.Protocol as Wire
use farcri_rs.Protocol.{kind, Reply, a_continue, an_instant}
use farcri_rs.Target.Replies.{Phase, idle, in_group, in_benchmark, ended, advance, answers}
use farcri_rs.Proxy.CcProtocol.{Floats, RawBenchmarkId}
use farcri_rs.Proxy.CcFront.{
  Formatter, Front, Result, ok, failed, panicked, chain, cc_send, target_send,
  serve_value_formatter, serve_and_continue, instant_reply, unwrap, assert_is_none, turn,
}
use farcri_rs.Proxy.CcFront.Serve.{IsPolite, Served, serve_value_formatter-Served}

module _ (fl : Floats) (fm : Formatter fl) where
  -- The front-end has the same things open as the target.
  abbrev pub Opens : Phase → Front fl → Type 0
  Opens idle s = (s.current_group ≡ none) × (s.current_benchmark ≡ none)
  Opens in_group s =
      ((group : Bytes) × (s.current_group ≡ some group)) × (s.current_benchmark ≡ none)
  Opens in_benchmark s =
      ((group : Bytes) × (s.current_group ≡ some group))
      × ((id : RawBenchmarkId) × (s.current_benchmark ≡ some id))
  Opens ended s = Unit {0}

  -- From one state to the other, the target was sent replies of the given kinds, and what is open
  -- fits the phase.
  pub record Answers (q : Phase) (rs : List Reply) (s s' : Front fl) : Type 0 where
    pub replies : List Wire.DownstreamMessage
    pub sends : s'.to_target ≡ s.to_target ++ replies
    pub kinds : map kind replies ≡ rs
    pub opens : Opens q s'
    pub polite : IsPolite fl fm s'.from_cc

  -- A link may fail; nothing panics.
  abbrev pub Answered : Phase → List Reply → Front fl → Result (Front fl) → Type 0
  Answered q rs s (ok s') = Answers q rs s s'
  Answered q rs s failed = Unit {0}
  Answered q rs s panicked = ⊥

  pub quiet :
      (q : Phase) (s s' : Front fl)
      → s'.to_target ≡ s.to_target
      → IsPolite fl fm s'.from_cc
      → Opens q s'
      → Answers q [] s s'
  quiet q s s' e p o = record {
    replies = [];
    sends = e ∙ sym (append-nil s.to_target);
    kinds = refl;
    opens = o;
    polite = p;
  }

  Opens-transport :
      (q : Phase) (s s' : Front fl)
      → s'.current_group ≡ s.current_group
      → s'.current_benchmark ≡ s.current_benchmark
      → Opens q s
      → Opens q s'
  Opens-transport idle s s' g b (o, o') = (g ∙ o, b ∙ o')
  Opens-transport in_group s s' g b ((x, o), o') = ((x, g ∙ o), b ∙ o')
  Opens-transport in_benchmark s s' g b ((x, o), (y, o')) = ((x, g ∙ o), (y, b ∙ o'))
  Opens-transport ended s s' g b o = tt

  serve_and_continue-Answered :
      (q : Phase) (s : Front fl)
      → IsPolite fl fm s.from_cc
      → Opens q s
      → Answered q (a_continue ∷ []) s (serve_and_continue fl fm s)
  unfolding serve_and_continue target_send
  serve_and_continue-Answered q s p o =
      go (serve_value_formatter fl fm s) (serve_value_formatter-Served fl fm s p)
    where
      go :
          (x : Result (Front fl))
          → Served fl fm s.from_cc s x
          → Answered q (a_continue ∷ []) s (chain x λ s'. ok (target_send fl Wire.continue s'))
      go (ok s') h = record {
        replies = Wire.continue ∷ [];
        sends = ap (λ l. l ++ Wire.continue ∷ []) h.to_target;
        kinds = refl;
        opens = Opens-transport q s (target_send fl Wire.continue s') h.group h.benchmark o;
        polite = h.left;
      }
      go failed h = tt
      go panicked h = h

  Answered-from :
      (q : Phase) (rs : List Reply) (s s₀ : Front fl) (x : Result (Front fl))
      → s₀.to_target ≡ s.to_target
      → Answered q rs s₀ x
      → Answered q rs s x
  Answered-from q rs s s₀ (ok s') e h = record {
    replies = h.replies;
    sends = h.sends ∙ ap (λ l. l ++ h.replies) e;
    kinds = h.kinds;
    opens = h.opens;
    polite = h.polite;
  }
  Answered-from q rs s s₀ failed e h = tt
  Answered-from q rs s s₀ panicked e h = h

  assert-Answered :
      {A : Type 0} (o : Option A) (q : Phase) (rs : List Reply) (s s₁ : Front fl)
      (k : Front fl → Result (Front fl))
      → o ≡ none
      → Answered q rs s (k s₁)
      → Answered q rs s (chain (assert_is_none fl o s₁) k)
  unfolding assert_is_none
  assert-Answered none q rs s s₁ k e h = h
  assert-Answered (some a) q rs s s₁ k e h = cc

  unwrap-Answered :
      {A : Type 0} (o : Option A) (a : A) (q : Phase) (rs : List Reply) (s : Front fl)
      (k : A → Result (Front fl))
      → o ≡ some a
      → ((a' : A) → Answered q rs s (k a'))
      → Answered q rs s (unwrap fl o k)
  unfolding unwrap
  unwrap-Answered none a q rs s k e h = cc
  unwrap-Answered (some a') a q rs s k e h = h a'

  instant-Answered :
      (q : Phase) (s : Front fl)
      → Opens q s
      → IsPolite fl fm s.from_cc
      → Answers q (an_instant ∷ []) s (instant_reply fl s)
  unfolding instant_reply target_send
  instant-Answered q s o p = record {
    replies = Wire.instant _ ∷ [];
    sends = refl;
    kinds = refl;
    opens = Opens-transport q s (instant_reply fl s) refl refl o;
    polite = p;
  }

  abbrev pub AnsweredAt : Option Phase → List Reply → Front fl → Result (Front fl) → Type 0
  AnsweredAt none rs s x = Unit {0}
  AnsweredAt (some q) rs s x = Answered q rs s x

  pub turn-Answered :
      (p : Phase) (m : Wire.UpstreamMessage) (s : Front fl)
      → Opens p s
      → IsPolite fl fm s.from_cc
      → AnsweredAt (advance p m) (answers m) s (turn fl fm m s)
  unfolding turn cc_send
  turn-Answered idle Wire.get_instant s o p = instant-Answered idle s o p
  turn-Answered in_group Wire.get_instant s o p = instant-Answered in_group s o p
  turn-Answered in_benchmark Wire.get_instant s o p = instant-Answered in_benchmark s o p
  turn-Answered idle (Wire.beginning_benchmark_group g) s (o, o') p =
      assert-Answered s.current_group in_group [] s _ _ o
        (quiet in_group s _ refl p ((g, refl), o'))
  turn-Answered idle Wire.end s o p = quiet ended s s refl p tt
  turn-Answered in_group Wire.finished_benchmark_group s ((g, o), o') p =
      unwrap-Answered s.current_group g idle _ s _ o
        λ group. Answered-from idle _ s _ _ refl (serve_and_continue-Answered idle _ p (refl, o'))
  turn-Answered in_group (Wire.beginning_benchmark id) s (o, o') p =
      assert-Answered s.current_benchmark in_benchmark [] s _ _ o'
        (quiet in_benchmark s _ refl p (o, (_, refl)))
  turn-Answered in_group (Wire.skipping_benchmark id) s (o, o') p =
      quiet in_group s _ refl p (o, o')
  turn-Answered in_benchmark (Wire.warmup d) s (o, (i, o')) p =
      unwrap-Answered s.current_benchmark i in_benchmark [] s _ o'
        λ id. quiet in_benchmark s _ refl p (o, (i, o'))
  turn-Answered in_benchmark (Wire.measurement_start _ _ _ _) s (o, (i, o')) p =
      unwrap-Answered s.current_benchmark i in_benchmark [] s _ o'
        λ id. quiet in_benchmark s _ refl p (o, (i, o'))
  turn-Answered in_benchmark (Wire.measurement_complete _ _ _) s (o, (i, o')) p =
      unwrap-Answered s.current_benchmark i in_group _ s _ o' λ id.
        Answered-from in_group _ s _ _ refl (serve_and_continue-Answered in_group _ p (o, refl))
  turn-Answered ended Wire.get_instant s o p = tt
  turn-Answered _ _ s o p = tt
