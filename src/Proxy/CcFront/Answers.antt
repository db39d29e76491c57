-- ===== src/Proxy/CcFront/Answers.antt =====
-- What `run_frontend` of src/proxy/ccfront.rs sends to the target.
use farcri_rs.Prelude.{
  Option, none, some, List, [], ◌∷◌, ◌++◌, map, ◌≡◌, refl, sym, subst, ap, ◌∙◌, ◌⊎◌, inl, inr,
  append_assoc,
}
use farcri_rs.Protocol as Wire
use farcri_rs.Protocol.{kind, Reply, a_continue, an_instant}
use farcri_rs.Target.Replies.{
  Phase, idle, in_group, in_benchmark, ended, advance, from, run, answers, expected,
  map-kind-append,
}
use farcri_rs.Proxy.CcProtocol.{Floats}
use farcri_rs.Proxy.CcFront.{
  Formatter, Front, Result, ok, failed, panicked, chain, turn, turns, run_frontend,
}
use farcri_rs.Proxy.CcFront.Turns.{Opens, Answers, Answered, AnsweredAt, quiet, turn-Answered}
use farcri_rs.Proxy.CcFront.Serve.{IsPolite}

module _ (fl : Floats) (fm : Formatter fl) where
  Answers-trans :
      (q r : Phase) (ks ls : List Reply) (a b : Front fl) (x : Result (Front fl))
      → Answers fl fm q ks a b
      → Answered fl fm r ls b x
      → Answered fl fm r (ks ++ ls) a x
  Answers-trans q r ks ls a b (ok c) h k = record {
    replies = h.replies ++ k.replies;
    sends =
        k.sends ∙ ap (λ l. l ++ k.replies) h.sends ∙ append_assoc a.to_target h.replies k.replies;
    kinds =
        map-kind-append h.replies k.replies
        ∙ ap (λ l. l ++ map kind k.replies) h.kinds
        ∙ ap (λ l. ks ++ l) k.kinds;
    opens = k.opens;
    polite = k.polite;
  }
  Answers-trans q r ks ls a b failed h k = tt
  Answers-trans q r ks ls a b panicked h k = k

  chain-Answered :
      (end : Phase) (o : Option Phase) (ms : List Wire.UpstreamMessage) (ks : List Reply)
      (s : Front fl) (x : Result (Front fl)) (k : Front fl → Result (Front fl))
      → from o (λ q. run q ms) ≡ some end
      → AnsweredAt fl fm o ks s x
      → ((q : Phase) (s' : Front fl)
          → run q ms ≡ some end
          → Answers fl fm q ks s s'
          → Answered fl fm end (expected ms) s' (k s'))
      → Answered fl fm end (ks ++ expected ms) s (chain x k)
  chain-Answered end none ms ks s x k e h go = cc
  chain-Answered end (some q) ms ks s (ok s') k e h go =
      Answers-trans q end ks (expected ms) s s' (k s') h (go q s' e h)
  chain-Answered end (some q) ms ks s failed k e h go = tt
  chain-Answered end (some q) ms ks s panicked k e h go = h

  nothing_after : (ms : List Wire.UpstreamMessage) → run ended ms ≡ some ended → ms ≡ []
  nothing_after [] e = refl
  nothing_after (Wire.get_instant ∷ ms) e = cc
  nothing_after (_ ∷ ms) e = cc

  end-Answered :
      (p : Phase) (ms : List Wire.UpstreamMessage) (s : Front fl)
      → run p (Wire.end ∷ ms) ≡ some ended
      → IsPolite fl fm s.from_cc
      → Answered fl fm ended (expected (Wire.end ∷ ms)) s (run_frontend fl fm (Wire.end ∷ ms) s)
  unfolding run_frontend
  end-Answered idle ms s e h =
      subst (λ l. Answered fl fm ended (expected l) s (ok s)) (sym (nothing_after ms e))
        (quiet fl fm ended s s refl h tt)
  end-Answered in_group ms s e h = cc
  end-Answered in_benchmark ms s e h = cc
  end-Answered ended ms s e h = cc

  -- The loop goes on behind each message but `End`.
  Continues : Wire.UpstreamMessage → Type 0
  Continues m =
      (ms : List Wire.UpstreamMessage) (s : Front fl)
      → run_frontend fl fm (m ∷ ms) s ≡ chain (turn fl fm m s) (λ s'. run_frontend fl fm ms s')

  ends_or_Continues : (m : Wire.UpstreamMessage) → (m ≡ Wire.end) ⊎ Continues m
  unfolding run_frontend Continues
  ends_or_Continues Wire.end = inl refl
  ends_or_Continues Wire.get_instant = inr (λ ms s. refl)
  ends_or_Continues (Wire.beginning_benchmark_group g) = inr (λ ms s. refl)
  ends_or_Continues Wire.finished_benchmark_group = inr (λ ms s. refl)
  ends_or_Continues (Wire.beginning_benchmark id) = inr (λ ms s. refl)
  ends_or_Continues (Wire.skipping_benchmark id) = inr (λ ms s. refl)
  ends_or_Continues (Wire.warmup d) = inr (λ ms s. refl)
  ends_or_Continues (Wire.measurement_start a b c d) = inr (λ ms s. refl)
  ends_or_Continues (Wire.measurement_complete a b c) = inr (λ ms s. refl)

  -- If the target opens and closes its groups and benchmarks in turn up to `End`, and cargo-criterion
  -- sends requests and `Continue` only, then `run_frontend` does not panic, and unless a link fails it
  -- sends the target, in order, an `Instant` for each `GetInstant` and a `Continue` for each
  -- benchmark measured and each group finished.
  pub run_frontend-Answered :
      (p : Phase) (ms : List Wire.UpstreamMessage) (s : Front fl)
      → run p ms ≡ some ended
      → Opens fl fm p s
      → IsPolite fl fm s.from_cc
      → Answered fl fm ended (expected ms) s (run_frontend fl fm ms s)
  unfolding run_frontend Continues
  run_frontend-Answered p [] s e o h = tt
  run_frontend-Answered p (m ∷ ms) s e o h = elim (ends_or_Continues m) [
    | inl q ↦
        subst (λ x. Answered fl fm ended (expected (x ∷ ms)) s (run_frontend fl fm (x ∷ ms) s))
          (sym q) (end-Answered p ms s (subst (λ x. run p (x ∷ ms) ≡ some ended) q e) h)
    | inr step ↦ subst (Answered fl fm ended (expected (m ∷ ms)) s) (sym (step ms s)) (
        chain-Answered ended (advance p m) ms (answers m) s (turn fl fm m s)
          (λ s'. run_frontend fl fm ms s') e (turn-Answered fl fm p m s o h)
          λ q s' e' a. run_frontend-Answered q ms s' e' a.opens a.polite)
  ]

  pub turns-Answered :
      (p q : Phase) (ms : List Wire.UpstreamMessage) (s : Front fl)
      → run p ms ≡ some q
      → Opens fl fm p s
      → IsPolite fl fm s.from_cc
      → Answered fl fm q (expected ms) s (turns fl fm ms s)
  unfolding turns
  turns-Answered p q [] s e o h =
      let p≡q : p ≡ q = cc in
      subst (λ q. Answered fl fm q [] s (ok s)) p≡q (quiet fl fm p s s refl h o)
  turns-Answered p q (m ∷ ms) s e o h =
      chain-Answered q (advance p m) ms _ s _ _ e (turn-Answered fl fm p m s o h)
        λ r s' e' a. turns-Answered r q ms s' e' a.opens a.polite
