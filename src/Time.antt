-- ===== src/Time.antt =====
-- src/bencher/time.rs: points of time and durations in nanoseconds, each a `u64`. The arithmetic is
-- that of a build without overflow checks, which benchmarks are: it wraps.
use farcri_rs.Prelude.{ℕ, ◌+◌, ◌-◌, ◌/◌, ◌%◌, ◌^◌, String, ltb, if◌then◌else◌}

abbrev pub u64_mod : ℕ
u64_mod = 2 ^ 64

abbrev pub Instant : Type 0
Instant = ℕ

abbrev pub Duration : Type 0
Duration = ℕ

-- What `Display` writes: a number and its suffix.
unfoldable pub display : Duration → ℕ × String
display d =
    if ltb d 5_000
    then (d, "ns")
    else if ltb d 5_000_000
    then (d / 1_000, "μs")
    else if ltb d 5_000_000_000
    then (d / 1_000_000, "ms")
    else (d / 1_000_000_000, "s")

-- The operations of a build without overflow checks, which wrap; one with checks would panic.
unfoldable pub add_u64 : ℕ → ℕ → ℕ
add_u64 a b = (a + b) % u64_mod

unfoldable pub sub_u64 : ℕ → ℕ → ℕ
sub_u64 a b = (a + u64_mod - b) % u64_mod

-- `Sub for Instant`
abbrev pub since : Instant → Instant → Duration
since = sub_u64
