-- ===== src/Proxy/System.antt =====
-- A target that runs its benchmarks (src/bencher/mod.rs) on the other end of the front-end of
-- src/proxy/ccfront.rs.
use farcri_rs.Prelude.{List, [], ◌∷◌, ◌++◌, map, ◌≡◌, sym, ap, subst, ◌∙◌, append-nil, Bytes}
use farcri_rs.Protocol.{Reply, Mode, DownstreamMessage, greeting, kind, UpstreamMessage}
use farcri_rs.Target.{Target, Outcome, done, panicked, waiting, out_of_fuel}
use farcri_rs.Target.Replies.{idle, ended, expected, Phase, Stuck, Talk, Reaches}
use farcri_rs.Bencher.Criterion.{Build, Group, main}
use farcri_rs.Bencher.Conversation.{main-Talk}
use farcri_rs.Proxy.CcProtocol.{Floats}
use farcri_rs.Proxy.CcFront as CcFront
use farcri_rs.Proxy.CcFront.{Formatter, Front, Result, ok, failed, turns, run_frontend}
use farcri_rs.Proxy.CcFront.Serve.{IsPolite}
use farcri_rs.Proxy.CcFront.Turns.{Opens, Answered}
use farcri_rs.Proxy.CcFront.Answers.{run_frontend-Answered, turns-Answered}

-- The front-end did not panic, and unless a link failed it sent replies of the kinds of those taken.
abbrev pub Provides : (fl : Floats) → List DownstreamMessage → Result (Front fl) → Type 0
Provides fl taken (ok s) = map kind s.to_target ≡ map kind taken
Provides fl taken failed = Unit {0}
Provides fl taken CcFront.panicked = ⊥

-- What the target took behind the greeting is of the kinds that the front-end provides for what the
-- target sent.
pub record Fits (fl : Floats) (fm : Formatter fl) (s : Front fl) (rest : List DownstreamMessage)
    (t' : Target) : Type 0 where
  pub taken : List DownstreamMessage
  pub takes : rest ≡ taken ++ t'.incoming
  pub provides : Provides fl taken (run_frontend fl fm t'.sent s)

Answered-Provides :
    (fl : Floats) (fm : Formatter fl) (s : Front fl) (ms : List UpstreamMessage)
    (taken : List DownstreamMessage) (x : Result (Front fl))
    → s.to_target ≡ []
    → expected ms ≡ map kind taken ++ []
    → Answered fl fm ended (expected ms) s x
    → Provides fl taken x
Answered-Provides fl fm s ms taken (ok s') e h a =
    ap (map kind) (a.sends ∙ ap (λ l. l ++ a.replies) e) ∙ a.kinds ∙ h ∙ append-nil (map kind taken)
Answered-Provides fl fm s ms taken failed e h a = tt
Answered-Provides fl fm s ms taken CcFront.panicked e h a = a

Talk-Fits :
    (fl : Floats) (fm : Formatter fl) (s : Front fl) (t t' : Target)
    → t.sent ≡ []
    → s.to_target ≡ []
    → Opens fl fm idle s
    → IsPolite fl fm s.from_cc
    → Talk idle [] ended [] t t'
    → Fits fl fm s t.incoming t'
Talk-Fits fl fm s t t' u e o p k = record {
  taken = k.replies;
  takes = k.receives;
  provides =
      subst (λ l. Provides fl k.replies (run_frontend fl fm l s))
        (sym (k.sends ∙ ap (λ l. l ++ k.messages) u))
        (Answered-Provides fl fm s k.messages k.replies _ e k.in_order
          (run_frontend-Answered fl fm idle k.messages s k.phases o p));
}

-- The front-end has sent more replies than came, unless a link of it failed.
abbrev pub Exceeds : (fl : Floats) → List DownstreamMessage → Result (Front fl) → Type 0
Exceeds fl came (ok s) =
    (r : Reply) × (more : List Reply) × (map kind s.to_target ≡ map kind came ++ r ∷ more)
Exceeds fl came failed = Unit {0}
Exceeds fl came CcFront.panicked = ⊥

Answered-Exceeds :
    (fl : Floats) (fm : Formatter fl) (s : Front fl) (q : Phase) (ks : List Reply)
    (came : List DownstreamMessage) (r : Reply) (more : List Reply) (x : Result (Front fl))
    → s.to_target ≡ []
    → ks ≡ map kind came ++ r ∷ more
    → Answered fl fm q ks s x
    → Exceeds fl came x
Answered-Exceeds fl fm s q ks came r more (ok s') e h a =
    (r, more, ap (map kind) (a.sends ∙ ap (λ l. l ++ a.replies) e) ∙ a.kinds ∙ h)
Answered-Exceeds fl fm s q ks came r more failed e h a = tt
Answered-Exceeds fl fm s q ks came r more CcFront.panicked e h a = a

Stuck-Exceeds :
    (fl : Floats) (fm : Formatter fl) (s : Front fl) (t t' : Target)
    → t.sent ≡ []
    → s.to_target ≡ []
    → Opens fl fm idle s
    → IsPolite fl fm s.from_cc
    → Stuck idle [] t t'
    → Exceeds fl t.incoming (turns fl fm t'.sent s)
Stuck-Exceeds fl fm s t t' u e o p (q, r, more, k, out) =
    let all = k.receives ∙ ap (λ l. k.replies ++ l) out ∙ append-nil k.replies in
    subst (λ l. Exceeds fl t.incoming (turns fl fm l s))
      (sym (k.sends ∙ ap (λ l. l ++ k.messages) u))
      (Answered-Exceeds fl fm s q (expected k.messages) t.incoming r more _ e
        (k.in_order ∙ ap (λ l. map kind l ++ r ∷ more) (sym all))
        (turns-Answered fl fm idle q k.messages s k.phases o p))

-- What is claimed of a run of the target that returns, and of one that waits for ever.
abbrev pub Agreed :
    (fl : Floats) → Formatter fl → Front fl → List DownstreamMessage → Outcome (Unit {0}) → Type 0
Agreed fl fm s rest (done _ t') = Fits fl fm s rest t'
Agreed fl fm s rest (waiting t') = Exceeds fl rest (turns fl fm t'.sent s)
Agreed fl fm s rest _ = Unit {0}

-- Let `main` be greeted with `Mode::Benchmark`, nothing be sent or open yet, and cargo-criterion send
-- requests and `Continue` only. If `main` returns or waits for ever, then the front-end for
-- cargo-criterion does not panic on what the target has sent. If `main` returns, then unless a link
-- of the front-end fails, the replies it sends are, in number, kind and order, those that the target
-- has taken behind the greeting. If `main` waits for ever, then unless a link fails the front-end
-- sends, for what the target has sent, more replies than have come to the target: the two do not
-- wait for each other.
pub main-Agreed :
    (build : Build) (gs : List Group) (unused : Bytes) (t : Target) (rest : List DownstreamMessage)
    (fl : Floats) (fm : Formatter fl) (s : Front fl)
    → t.incoming ≡ greeting unused Mode.benchmark ∷ rest
    → t.sent ≡ []
    → s.to_target ≡ []
    → Opens fl fm idle s
    → IsPolite fl fm s.from_cc
    → Agreed fl fm s rest (main build gs t)
main-Agreed build gs unused t rest fl fm s h u e o p =
    go (main build gs t) (main-Talk build gs unused t rest h)
  where
    go :
        (x : Outcome (Unit {0}))
        → Reaches idle [] ended [] (record t { incoming = rest }) x
        → Agreed fl fm s rest x
    go (done a t') k = Talk-Fits fl fm s (record t { incoming = rest }) t' u e o p k
    go panicked k = tt
    go (waiting t') k = Stuck-Exceeds fl fm s (record t { incoming = rest }) t' u e o p k
    go out_of_fuel k = tt
