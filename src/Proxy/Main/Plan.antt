-- ===== src/Proxy/Main/Plan.antt =====
-- What the proxy does, in which order, and where it stops.
use farcri_rs.Prelude.{
  Bool, true, false, ◌&&◌, Option, none, some, List, [], ◌∷◌, ◌++◌, if◌then◌else◌, Bytes, ◌≡◌, refl,
  sym, ap, subst, inl, inr, Bool-cases,
}
use farcri_rs.Protocol.{Mode, benchmark, test}
use farcri_rs.Arch.{BuildOpt, build_opt}
use farcri_rs.Proxy.Main.{
  Opts, Board, Step, prepare_build, connect_probe, build, program, handshake, greet,
  connect_criterion, cc_front, dumb_front, success, failure, Run, Port, unset, invalid, port,
  rustflags_of, build_args, cargo_args, target_name_of, finished, attempt, front_end, on_target,
  arch_of, with_opt, main_inner,
}

abbrev pub fronts : Port → List Step
fronts unset = dumb_front ∷ []
fronts invalid = []
fronts (port p) = connect_criterion p ∷ cc_front ∷ []

-- The build and what follows it: nothing in a dry run, which connects to no probe.
abbrev pub plan : Opts → Board → Bytes → Port → BuildOpt → List Step
plan o b name p opt =
    let compile =
      build (cargo_args name (build_args o b opt))
        (rustflags_of opt.target_features b.rustc_flags) in
    if o.dry_run
    then compile ∷ []
    else connect_probe ∷ compile ∷ program ∷ handshake ∷ greet benchmark ∷ fronts p

abbrev pub is_valid : Opts → Port → Bool
is_valid o invalid = o.dry_run
is_valid o unset = true
is_valid o (port p) = true

module _ (works : Step → Bool) where
  -- The steps up to the first that does not work.
  abbrev pub tried : List Step → List Step
  tried [] = []
  tried (s ∷ ss) = if works s then s ∷ tried ss else s ∷ []

  abbrev pub all_work : List Step → Bool
  all_work [] = true
  all_work (s ∷ ss) = works s && all_work ss

  -- The steps `ss` are tried in turn, and it is a success if all work and nothing else is wrong.
  abbrev pub Follows : List Step → Bool → Run → Type 0
  Follows ss fine run =
      (run.steps ≡ tried ss) × (run.exit ≡ (if all_work ss && fine then success else failure))

  attempt-Follows :
      (s : Step) (ss : List Step) (fine : Bool) (rest : Run)
      → Follows ss fine rest
      → Follows (s ∷ ss) fine (attempt works s rest)
  unfolding attempt
  attempt-Follows s ss fine rest (e, x) = elim (Bool-cases (works s)) [
    | inl worked ↦ rw worked (ap (◌∷◌ s) e, x)
    | inr stuck ↦ rw stuck (refl, refl)
  ]

  finished-Follows : Follows [] true finished
  finished-Follows = (refl, refl)

  front_end-Follows :
      (o : Opts) (p : Port)
      → o.dry_run ≡ false
      → Follows (fronts p) (is_valid o p) (front_end works p)
  unfolding front_end
  front_end-Follows o unset d = attempt-Follows dumb_front [] true finished finished-Follows
  front_end-Follows o invalid d = rw d (refl, refl)
  front_end-Follows o (port p) d =
      attempt-Follows (connect_criterion p) (cc_front ∷ []) true _
        (attempt-Follows cc_front [] true finished finished-Follows)

  dry-is_valid : (o : Opts) (p : Port) → o.dry_run ≡ true → is_valid o p ≡ true
  dry-is_valid o unset d = refl
  dry-is_valid o invalid d = d
  dry-is_valid o (port p) d = refl

  on_target-Follows :
      (compile : Step) (mode : Mode) (o : Opts) (p : Port)
      → o.dry_run ≡ false
      → Follows
          (connect_probe ∷ compile ∷ program ∷ handshake ∷ greet mode ∷ fronts p)
          (is_valid o p)
          (on_target works compile mode p)
  unfolding on_target
  on_target-Follows compile mode o p wet =
      let v = is_valid o p in
      let at_4 = greet mode ∷ fronts p in
      let at_3 = handshake ∷ at_4 in
      let at_2 = program ∷ at_3 in
      attempt-Follows connect_probe (compile ∷ at_2) v _ (
        attempt-Follows compile at_2 v _ (
          attempt-Follows program at_3 v _ (
            attempt-Follows handshake at_4 v _
              (attempt-Follows (greet mode) (fronts p) v _ (front_end-Follows o p wet)))))

  with_opt-Follows :
      (o : Opts) (b : Board) (name : Bytes) (p : Port) (opt : BuildOpt)
      → o.bench ≡ true
      → Follows (plan o b name p opt) (is_valid o p) (with_opt works o b name p (some opt))
  unfolding with_opt
  with_opt-Follows o b name p opt bench =
      let compile =
        build (cargo_args name (build_args o b opt))
          (rustflags_of opt.target_features b.rustc_flags) in
      let live = connect_probe ∷ compile ∷ program ∷ handshake ∷ greet benchmark ∷ fronts p in
      let run = λ (m : Bool). on_target works compile (if m then benchmark else test) p in
      let Goal = λ (dry m : Bool).
        Follows (if dry then compile ∷ [] else live) (is_valid o p)
          (if dry then attempt works compile finished else run m) in
      elim (Bool-cases o.dry_run) [
        | inl dry ↦
            subst (λ d. Goal d o.bench) (sym dry)
              (subst (λ v. Follows (compile ∷ []) v (attempt works compile finished))
                (sym (dry-is_valid o p dry))
                (attempt-Follows compile [] true finished finished-Follows))
        | inr wet ↦
            subst (λ d. Goal d o.bench) (sym wet)
              (subst (λ m. Goal false m) (sym bench) (on_target-Follows compile benchmark o p wet))
      ]

  -- With options for the architecture and `--bench`, the build is prepared, then the probe is connected to,
  -- the program built, loaded and met in a handshake, greeted with the benchmark mode, and served by
  -- the front-end that the port asks for; a dry run just builds. The first step that does not work
  -- is the last, and the run is a success if all work and the port is a number or not asked for.
  pub main_inner-Follows :
      (o : Opts) (b : Board) (name : Bytes) (p : Port) (opt : BuildOpt)
      → o.bench ≡ true
      → build_opt (arch_of o b) ≡ some opt
      → Follows (prepare_build ∷ plan o b name p opt) (is_valid o p) (main_inner works o b name p)
  unfolding main_inner with_opt
  main_inner-Follows o b name p opt bench e =
      let ss = prepare_build ∷ plan o b name p opt in
      let go = λ (x : Option BuildOpt). attempt works prepare_build (with_opt works o b name p x) in
      subst (λ v. Follows ss (is_valid o p) (if v then go (build_opt (arch_of o b)) else finished))
        (sym bench)
        (subst (λ x. Follows ss (is_valid o p) (go x)) (sym e)
          (attempt-Follows prepare_build (plan o b name p opt) (is_valid o p)
            (with_opt works o b name p (some opt)) (with_opt-Follows o b name p opt bench)))

pub target_name_of-dash :
    (name hash : Bytes)
    → target_name_of hash ≡ none
    → target_name_of (name ++ (b'-' ∷ hash)) ≡ some name
unfolding target_name_of
target_name_of-dash [] hash h = rw h refl
target_name_of-dash (c ∷ cs) hash h = rw (target_name_of-dash cs hash h) refl
