-- ===== src/Proxy/CcFront/Serve.antt =====
-- What `serve_value_formatter` of src/proxy/ccfront.rs answers, and what it leaves alone.
use farcri_rs.Prelude.{List, [], ◌∷◌, ◌++◌, ◌≡◌, refl, sym, ap, ◌∙◌, append-nil, append_assoc}
use farcri_rs.Proxy.CcProtocol.{
  Floats, IncomingMessage, format_value, format_throughput, scale_values, scale_throughputs,
  scale_for_machines, continue, other, OutgoingMessage, formatted_value, scaled_values,
}
use farcri_rs.Proxy.CcFront.{
  Formatter, Front, Result, ok, failed, panicked, cc_send, service, served, serve_loop,
  serve_value_formatter,
}

module _ (fl : Floats) (fm : Formatter fl) where
  -- No message but the requests and `Continue`.
  abbrev pub IsPolite : List (IncomingMessage fl) → Type 0
  IsPolite [] = Unit {0}
  IsPolite (other ∷ ms) = ⊥
  IsPolite (m ∷ ms) = IsPolite ms

  -- No `Continue`.
  abbrev pub HasNoEnd : List (IncomingMessage fl) → Type 0
  HasNoEnd [] = Unit {0}
  HasNoEnd (continue ∷ ms) = ⊥
  HasNoEnd (m ∷ ms) = HasNoEnd ms

  -- The response to a request: the text for a value or for a rate, or the values of the request, scaled by
  -- the method that the request names, with their unit.
  abbrev pub IsAnswer : IncomingMessage fl → OutgoingMessage fl → Type 0
  IsAnswer (format_value v) m = m ≡ formatted_value (fm.value_text v)
  IsAnswer (format_throughput v tp) m = m ≡ formatted_value (fm.throughput_text tp v)
  IsAnswer (scale_values v vs) m =
      let (unit, values) = fm.scaled v vs in m ≡ scaled_values values unit
  IsAnswer (scale_throughputs v vs tp) m =
      let (unit, values) = fm.scaled_throughputs v tp vs in m ≡ scaled_values values unit
  IsAnswer (scale_for_machines vs) m =
      let (unit, values) = fm.scaled_for_machines vs in m ≡ scaled_values values unit
  IsAnswer continue m = ⊥
  IsAnswer other m = ⊥

  -- As many responses as requests, and each answers the request in its place.
  abbrev pub AreAnswers : List (IncomingMessage fl) → List (OutgoingMessage fl) → Type 0
  AreAnswers [] [] = Unit {0}
  AreAnswers (r ∷ rs) (m ∷ ms) = IsAnswer r m × AreAnswers rs ms
  AreAnswers _ _ = ⊥

  -- The messages up to a `Continue` were requests, each of them was answered in order, and what lies
  -- behind the `Continue` is still to be read.
  pub record Serves (ms : List (IncomingMessage fl)) (s s' : Front fl) : Type 0 where
    pub requests : List (IncomingMessage fl)
    pub responses : List (OutgoingMessage fl)
    pub reads : ms ≡ requests ++ continue ∷ s'.from_cc
    pub responds : AreAnswers requests responses
    pub sends : s'.to_cc ≡ s.to_cc ++ responses
    pub to_target : s'.to_target ≡ s.to_target
    pub group : s'.current_group ≡ s.current_group
    pub benchmark : s'.current_benchmark ≡ s.current_benchmark
    pub left : IsPolite s'.from_cc

  abbrev pub Served : List (IncomingMessage fl) → Front fl → Result (Front fl) → Type 0
  Served ms s (ok s') = Serves ms s s'
  Served ms s failed = HasNoEnd ms
  Served ms s panicked = ⊥

  no_end-cons :
      (m : IncomingMessage fl) (out : OutgoingMessage fl) (ms : List (IncomingMessage fl))
      → IsAnswer m out
      → HasNoEnd ms
      → HasNoEnd (m ∷ ms)
  no_end-cons (format_value _) out ms r h = h
  no_end-cons (format_throughput _ _) out ms r h = h
  no_end-cons (scale_values _ _) out ms r h = h
  no_end-cons (scale_throughputs _ _ _) out ms r h = h
  no_end-cons (scale_for_machines _) out ms r h = h
  no_end-cons continue out ms r h = elim r [ ]
  no_end-cons other out ms r h = elim r [ ]

  respond-Served :
      (m : IncomingMessage fl) (out : OutgoingMessage fl) (ms : List (IncomingMessage fl))
      (s : Front fl) (x : Result (Front fl))
      → IsAnswer m out
      → Served ms (cc_send fl out s) x
      → Served (m ∷ ms) s x
  unfolding cc_send
  respond-Served m out ms s (ok s') r h = record {
    requests = m ∷ h.requests;
    responses = out ∷ h.responses;
    reads = ap (λ l. m ∷ l) h.reads;
    responds = (r, h.responds);
    sends = h.sends ∙ append_assoc s.to_cc (out ∷ []) h.responses;
    to_target = h.to_target;
    group = h.group;
    benchmark = h.benchmark;
    left = h.left;
  }
  respond-Served m out ms s failed r h = no_end-cons m out ms r h
  respond-Served m out ms s panicked r h = h

  serve_loop-Served :
      (ms : List (IncomingMessage fl)) (s : Front fl)
      → IsPolite ms
      → Served ms s (serve_loop fl fm ms s)
  unfolding serve_loop served service
  serve_loop-Served [] s p = tt
  serve_loop-Served (format_value v ∷ ms) s p =
      respond-Served (format_value v) _ ms s _ refl (serve_loop-Served ms _ p)
  serve_loop-Served (format_throughput v t ∷ ms) s p =
      respond-Served (format_throughput v t) _ ms s _ refl (serve_loop-Served ms _ p)
  serve_loop-Served (scale_values v vs ∷ ms) s p =
      respond-Served (scale_values v vs) _ ms s _ refl (serve_loop-Served ms _ p)
  serve_loop-Served (scale_throughputs v vs t ∷ ms) s p =
      respond-Served (scale_throughputs v vs t) _ ms s _ refl (serve_loop-Served ms _ p)
  serve_loop-Served (scale_for_machines vs ∷ ms) s p =
      respond-Served (scale_for_machines vs) _ ms s _ refl (serve_loop-Served ms _ p)
  serve_loop-Served (continue ∷ ms) s p = record {
    requests = [];
    responses = [];
    reads = refl;
    responds = tt;
    sends = sym (append-nil s.to_cc);
    to_target = refl;
    group = refl;
    benchmark = refl;
    left = p;
  }
  serve_loop-Served (other ∷ ms) s p = elim p [ ]

  -- If cargo-criterion sends nothing but requests and `Continue`, `serve_value_formatter` answers the
  -- requests before the first `Continue` one by one with the text or the scaled values that it asks the
  -- formatter for, takes that `Continue`, and touches neither the target nor what is open. It fails if no `Continue` comes.
  pub serve_value_formatter-Served :
      (s : Front fl) → IsPolite s.from_cc → Served s.from_cc s (serve_value_formatter fl fm s)
  unfolding serve_value_formatter
  serve_value_formatter-Served s p = serve_loop-Served s.from_cc s p
