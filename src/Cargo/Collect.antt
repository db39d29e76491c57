-- ===== src/Cargo/Collect.antt =====
-- What `compile_self` of src/cargo.rs takes from cargo's messages.
use farcri_rs.Prelude.{
  Bool, true, false, ◌&&◌, ◌||◌, Option, none, some, List, [], ◌∷◌, ◌++◌, map, length, equal, ◌==◌,
  if◌then◌else◌, codes, Bytes, ◌≡◌, refl, sym, ap, ap₂, ◌∙◌, arith, inl, inr, Bool-cases,
  append-nil, append_assoc,
}
use farcri_rs.Futures.{window_eq}
use farcri_rs.Cargo.{
  library_path, Target, MessageFlat, reason_artifact, reason_message, reason_script,
  reason_finished, deserialize, deserialized, artifact_with, script_with, Build, any_bench,
  with_path, pushed, push_paths, on_message, then_messages, read_messages, found_path, built,
  compiled,
}
use farcri_rs.Cargo.LinkedPaths.{Linked, text_of, AllPlain, library_path-with_prefix}
use farcri_rs.Cargo.Unescape.{has_code, json_escape, json_unescape-escape}

-- What cargo reports.
pub data Event : Type 0 where
  artifact : (target : Target) (executable : Option Bytes) → Event
  script : (linked_paths : List Linked) → Event
  diagnostic finished : Event

abbrev pub ArePlain : List Event → Type 0
ArePlain [] = Unit {0}
ArePlain (script ls ∷ es) = AllPlain ls × ArePlain es
ArePlain (_ ∷ es) = ArePlain es

abbrev escape? : Option Bytes → Option Bytes
escape? none = none
escape? (some path) = some (json_escape path)

-- The message, with JSON's escapes.
abbrev pub message_of : Event → MessageFlat
message_of (artifact t e) = record {
  reason = reason_artifact;
  target = some t;
  executable = escape? e;
  linked_paths = none;
}
message_of (script ps) = record {
  reason = reason_script;
  target = none;
  executable = none;
  linked_paths = some (map json_escape (map text_of ps));
}
message_of diagnostic = record {
  reason = reason_message;
  target = none;
  executable = none;
  linked_paths = none;
}
message_of finished = record {
  reason = reason_finished;
  target = none;
  executable = none;
  linked_paths = none;
}

-- One of the kinds is that of benchmarks.
abbrev pub is_benchmark : List Bytes → Bool
is_benchmark [] = false
is_benchmark (kind ∷ kinds) = equal kind (codes "bench") || is_benchmark kinds

-- The executables of the benchmarks.
abbrev pub executables : List Event → List Bytes
executables [] = []
executables (artifact t (some e) ∷ es) =
    if is_benchmark t.kind then e ∷ executables es else executables es
executables (_ ∷ es) = executables es

abbrev pub linked : List Event → List Bytes
linked [] = []
linked (script ps ∷ es) = map (λ l. l.path) ps ++ linked es
linked (_ ∷ es) = linked es

-- A text that is used has a control character that JSON writes by its code.
abbrev pub any_code : List Bytes → Bool
any_code [] = false
any_code (t ∷ ts) = has_code t || any_code ts

abbrev pub any_code_in : List Event → Bool
any_code_in [] = false
any_code_in (artifact t (some e) ∷ es) = (is_benchmark t.kind && has_code e) || any_code_in es
any_code_in (script ps ∷ es) = any_code (map text_of ps) || any_code_in es
any_code_in (_ ∷ es) = any_code_in es

abbrev pub last_of : Option Bytes → List Bytes → Option Bytes
last_of o [] = o
last_of o (x ∷ xs) = last_of (some x) xs

equal-window : (xs ns : Bytes) → (window_eq xs ns && length xs == length ns) ≡ equal xs ns
unfolding window_eq
equal-window [] [] = refl
equal-window (x ∷ xs) [] = ground arith
equal-window [] (n ∷ ns) = refl
equal-window (x ∷ xs) (n ∷ ns) = ground (arith, equal-window xs ns)

any_bench-is_benchmark : (kinds : List Bytes) → any_bench kinds ≡ is_benchmark kinds
unfolding any_bench
any_bench-is_benchmark [] = refl
any_bench-is_benchmark (kind ∷ kinds) =
    ap₂ ◌||◌ (equal-window kind (codes "bench")) (any_bench-is_benchmark kinds)

abbrev add_paths : List Bytes → Build → Build
add_paths ps b = record b { library_paths = b.library_paths ++ ps }

push_paths_lem :
    (ls : List Linked) (b : Build)
    → AllPlain ls
    → push_paths (map json_escape (map text_of ls)) b
      ≡ (if any_code (map text_of ls) then none else some (add_paths (map (λ l. l.path) ls) b))
unfolding push_paths pushed
push_paths_lem [] b h =
    ap (λ l. some (record b { library_paths = l })) (sym (append-nil b.library_paths))
push_paths_lem (l ∷ ls) b (h, hs) =
    let go = λ (path : Bytes).
      push_paths (map json_escape (map text_of ls)) (add_paths (library_path path ∷ []) b) in
    ap (λ o. pushed o go) (json_unescape-escape (text_of l))
    ∙ (elim (Bool-cases (has_code (text_of l))) [
      | inl code ↦ rw code refl
      | inr readable ↦ rw readable (
          ap (λ p. push_paths (map json_escape (map text_of ls)) (add_paths (p ∷ []) b))
            (library_path-with_prefix l.kind l.path h)
          ∙ push_paths_lem ls (add_paths (l.path ∷ []) b) hs
          ∙ ap
              (λ ps.
                if any_code (map text_of ls) then none else some (record b { library_paths = ps }))
              (append_assoc b.library_paths (l.path ∷ []) (map (λ l. l.path) ls)))
    ])

abbrev after_events : List Event → Build → Build
after_events es b = record {
  path = last_of b.path (executables es);
  library_paths = b.library_paths ++ linked es;
}

abbrev read_as : List Event → Build → Option Build
read_as es b = if any_code_in es then none else some (after_events es b)

read_messages_lem :
    (es : List Event) (b : Build) → ArePlain es → read_messages (map message_of es) b ≡ read_as es b
unfolding read_messages on_message deserialize deserialized artifact_with script_with with_path
    then_messages
read_messages_lem [] b h =
    ap (λ l. some (record b { library_paths = l })) (sym (append-nil b.library_paths))
read_messages_lem (artifact t none ∷ es) b h = read_messages_lem es b h
read_messages_lem (artifact t (some e) ∷ es) b h = elim (Bool-cases (is_benchmark t.kind)) [
  | inl bench ↦
      rw (any_bench-is_benchmark t.kind, bench)
        (ap (λ o. then_messages (with_path o b) (read_messages (map message_of es)))
            (json_unescape-escape e)
          ∙ executable (has_code e) (read_messages_lem es (record b { path = some e }) h))
  | inr other ↦ rw (any_bench-is_benchmark t.kind, other) (read_messages_lem es b h)
]
  where
    executable :
        (code : Bool)
        → read_messages (map message_of es) (record b { path = some e })
          ≡ read_as es (record b { path = some e })
        → then_messages
            (with_path (if code then none else some e) b)
            (read_messages (map message_of es))
          ≡ (if code || any_code_in es
              then none
              else some (after_events es (record b { path = some e })))
    executable true later = refl
    executable false later = later
read_messages_lem (script ps ∷ es) b (h, hs) =
    ap (λ o. then_messages o (read_messages (map message_of es))) (push_paths_lem ps b h)
    ∙ scripted (any_code (map text_of ps))
        (read_messages_lem es (add_paths (map (λ l. l.path) ps) b) hs)
  where
    paths : List Bytes
    paths = map (λ l. l.path) ps

    scripted :
        (code : Bool)
        → read_messages (map message_of es) (add_paths paths b) ≡ read_as es (add_paths paths b)
        → then_messages
            (if code then none else some (add_paths paths b))
            (read_messages (map message_of es))
          ≡ (if code || any_code_in es then none else some (after_events (script ps ∷ es) b))
    scripted true later = refl
    scripted false later =
        later
        ∙ ap
            (λ l.
              if any_code_in es
              then none
              else some (record { path = last_of b.path (executables es); library_paths = l }))
            (append_assoc b.library_paths paths (linked es))
read_messages_lem (diagnostic ∷ es) b h = read_messages_lem es b h
read_messages_lem (finished ∷ es) b h = read_messages_lem es b h

-- If no linked path holds one of cargo's prefixes, but for the one that cargo puts before it: the executable
-- is the last benchmark's that cargo reported, and the library paths are all linked paths in their
-- order, without the prefixes. The build panics without a benchmark's executable, and if that of a
-- benchmark or a linked path has a control character for which JSON has no letter.
pub compiled-Last :
    (es : List Event)
    → ArePlain es
    → compiled (map message_of es) ≡ (
        if any_code_in es then none else elim (last_of none (executables es)) [
          | none ↦ none
          | some path ↦ some (path, linked es)
        ])
unfolding compiled built found_path
compiled-Last es h =
    ap built (read_messages_lem es (record { path = none; library_paths = [] }) h)
    ∙ found (any_code_in es) (last_of none (executables es))
  where
    found :
        (code : Bool) (o : Option Bytes)
        → built (if code then none else some (record { path = o; library_paths = linked es }))
          ≡ (if code then none else elim o [ none ↦ none | some path ↦ some (path, linked es) ])
    found true o = refl
    found false none = refl
    found false (some path) = refl
