-- ===== src/Cargo.antt =====
-- What src/cargo.rs makes of the messages of `cargo bench --message-format json-render-diagnostics`. The
-- parser of the third-party crate serde_json_core comes before this file: a message is given as the
-- fields of `MessageFlat`, whose strings still have JSON's escapes.
pub mod Unescape
pub mod LinkedPaths
pub mod Collect
use farcri_rs.Prelude.{
  ℕ, zero, suc, ◌-◌, Bool, true, false, ◌&&◌, ◌||◌, Option, none, some, List, [], ◌∷◌, ◌++◌, length,
  ◌==◌, if◌then◌else◌, codes, Bytes,
}
use farcri_rs.Futures.{window_eq}

abbrev pub backslash : ℕ
backslash = 0x5c

-- `split("\\")`: the first part and the others.
unfoldable pub split : Bytes → Bytes × List Bytes
split [] = ([], [])
split (c ∷ cs) =
    let (part, parts) = split cs in if c == backslash then ([], part ∷ parts) else (c ∷ part, parts)

-- What a letter behind a backslash stands for. `none` is a panic, and for `u` the `todo!()`.
abbrev pub unescape_char : ℕ → Option ℕ
unescape_char c =
    if c == b'u'
    then none
    else if c == b'"'
    then some b'"'
    else if c == b'/'
    then some b'/'
    else if c == b'b'
    then some 0x8
    else if c == b'f'
    then some 0xc
    else if c == b'n'
    then some 0xa
    else if c == b'r'
    then some 0xd
    else if c == b't'
    then some 0x9
    else none

unescaped : Option ℕ → Bytes → Bytes → (Bytes → Option Bytes) → Option Bytes
unescaped none rest out go = none
unescaped (some c) rest out go = go (out ++ (c ∷ rest))

-- The loop over the parts. `none` is a panic.
unfoldable pub unescape_parts : Bytes → List Bytes → Option Bytes
unfolding unescaped
unescape_parts out [] = some out
unescape_parts out ([] ∷ []) = none
unescape_parts out ([] ∷ rest ∷ parts) = unescape_parts (out ++ (backslash ∷ rest)) parts
unescape_parts out ((c ∷ rest) ∷ parts) =
    unescaped (unescape_char c) rest out (λ out'. unescape_parts out' parts)

-- `json_unescape`
unfoldable pub json_unescape : Bytes → Option Bytes
unfolding split unescape_parts
json_unescape x = let (part, parts) = split x in unescape_parts part parts

-- `replace(pattern, "")`, where `skip` bytes of a match are still to be dropped.
unfoldable pub remove : Bytes → ℕ → Bytes → Bytes
unfolding window_eq
remove pattern skip [] = []
remove pattern (suc skip) (x ∷ xs) = remove pattern skip xs
remove pattern zero (x ∷ xs) =
    if window_eq (x ∷ xs) pattern
    then remove pattern (length pattern - 1) xs
    else x ∷ remove pattern zero xs

-- A linked path, less cargo's prefixes.
unfoldable pub library_path : Bytes → Bytes
unfolding remove
library_path path =
    let path = remove (codes "dependency=") 0 path in
    let path = remove (codes "crate=") 0 path in
    let path = remove (codes "native=") 0 path in
    let path = remove (codes "framework=") 0 path in remove (codes "all=") 0 path

pub record Target : Type 0 where
  pub name : Bytes
  pub kind : List Bytes

pub data Message : Type 0 where
  compiler_artifact : (target : Target) (executable : Option Bytes) → Message
  compiler_message : Message
  build_script_executed : (linked_paths : List Bytes) → Message
  build_finished : Message

pub data MessageReason : Type 0 where
  reason_artifact reason_message reason_script reason_finished : MessageReason

pub record MessageFlat : Type 0 where
  pub reason : MessageReason
  pub target : Option Target
  pub executable : Option Bytes
  pub linked_paths : Option (List Bytes)

artifact_with : Option Target → Option Bytes → Option Message
artifact_with none executable = none
artifact_with (some target) executable = some (compiler_artifact target executable)

script_with : Option (List Bytes) → Option Message
script_with none = none
script_with (some linked_paths) = some (build_script_executed linked_paths)

deserialized : MessageReason → MessageFlat → Option Message
unfolding artifact_with script_with
deserialized reason_artifact flat = artifact_with flat.target flat.executable
deserialized reason_message flat = some compiler_message
deserialized reason_script flat = script_with flat.linked_paths
deserialized reason_finished flat = some build_finished

-- `Message::deserialize`; `none` is the error of a missing field.
unfoldable pub deserialize : MessageFlat → Option Message
unfolding deserialized
deserialize flat = deserialized flat.reason flat

-- `CompiledExecutable`, while its path may be missing.
pub record Build : Type 0 where
  pub path : Option Bytes
  pub library_paths : List Bytes

unfoldable pub any_bench : List Bytes → Bool
any_bench [] = false
any_bench (kind ∷ kinds) = (window_eq kind (codes "bench") && length kind == 5) || any_bench kinds

with_path : Option Bytes → Build → Option Build
with_path none b = none
with_path (some path) b = some (record b { path = some path })

pushed : Option Bytes → (Bytes → Option Build) → Option Build
pushed none go = none
pushed (some path) go = go path

-- The loop over the linked paths. `none` is the panic of `json_unescape`.
unfoldable pub push_paths : List Bytes → Build → Option Build
unfolding json_unescape library_path pushed
push_paths [] b = some b
push_paths (p ∷ ps) b = pushed (json_unescape p) (λ path.
    push_paths ps (record b { library_paths = b.library_paths ++ (library_path path ∷ []) }))

on_message : Option Message → Build → Option Build
unfolding with_path push_paths json_unescape any_bench
on_message none b = none
on_message (some (compiler_artifact target none)) b = some b
on_message (some (compiler_artifact target (some executable))) b =
    if any_bench target.kind then with_path (json_unescape executable) b else some b
on_message (some (build_script_executed linked_paths)) b = push_paths linked_paths b
on_message (some compiler_message) b = some b
on_message (some build_finished) b = some b

then_messages : Option Build → (Build → Option Build) → Option Build
then_messages none go = none
then_messages (some b) go = go b

-- The loop of `compile_self` over the messages. `none` is a panic.
unfoldable pub read_messages : List MessageFlat → Build → Option Build
unfolding deserialize on_message then_messages
read_messages [] b = some b
read_messages (m ∷ ms) b = then_messages (on_message (deserialize m) b) (λ b'. read_messages ms b')

found_path : Option Bytes → List Bytes → Option (Bytes × List Bytes)
found_path none ps = none
found_path (some path) ps = some (path, ps)

built : Option Build → Option (Bytes × List Bytes)
unfolding found_path
built none = none
built (some b) = found_path b.path b.library_paths

-- The end of `compile_self`: the executable and the library paths; `none` is a panic.
unfoldable pub compiled : List MessageFlat → Option (Bytes × List Bytes)
unfolding read_messages built
compiled ms = built (read_messages ms (record { path = none; library_paths = [] }))
