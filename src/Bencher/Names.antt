-- ===== src/Bencher/Names.antt =====
-- The group name that `benchmark_group` of src/bencher/mod.rs keeps.
use farcri_rs.Prelude.{
  ℕ, ◌<◌, true, false, none, some, length, get_or, take, leb, Bytes, ◌≡◌, refl, arith, le→leb,
  lt→ltb,
}
use farcri_rs.Str.{is_utf8_continuation, is_boundary, utf8_str_prev, IsPrev, utf8_str_prev-IsPrev}
use farcri_rs.Bencher.Criterion.{Build, name_capacity, kept_name}

-- Of a name that does not fit, a build without debug assertions keeps what stands before the last
-- scalar that begins before the capacity: always less than fits, even if a scalar ends there.
pub kept_name-IsPrev :
    (build : Build) (name : Bytes)
    → build.debug_assertions ≡ false
    → name_capacity < length name
    → (r : ℕ) × (kept_name build name ≡ some (take r name))
      × IsPrev name name_capacity r
      × (r < name_capacity)
unfolding kept_name
kept_name-IsPrev build name d long =
    let (r, e, p) = utf8_str_prev-IsPrev name name_capacity (omega arith) in
    (r, rw (lt→ltb name_capacity (length name) long, d, e) refl, p, p.before.0 (omega arith))

-- A build with debug assertions panics on a name with a scalar across the capacity.
pub kept_name_panics :
    (build : Build) (name : Bytes)
    → build.debug_assertions ≡ true
    → name_capacity < length name
    → is_utf8_continuation (get_or name name_capacity 0) ≡ true
    → kept_name build name ≡ none
unfolding kept_name utf8_str_prev is_boundary
kept_name_panics build name d long c =
    let a : leb (length name) name_capacity ≡ false = ground arith in
    let b : leb name_capacity (length name) ≡ true =
      le→leb name_capacity (length name) (omega arith) in
    rw (lt→ltb name_capacity (length name) long, d, b, a, c) refl
