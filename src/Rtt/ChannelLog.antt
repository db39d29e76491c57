-- ===== src/Rtt/ChannelLog.antt =====
-- What is relied on of the channels of the third-party crate probe_rs_rtt, by which
-- src/proxy/targets/probe_rs.rs reaches the target.
use farcri_rs.Prelude.{
  ℕ, ◌<◌, ◌≤◌, none, some, [], ◌++◌, length, take, ◌==◌, if◌then◌else◌, Bytes, ◌≡◌, ◌⊎◌,
}
use farcri_rs.Rtt.{Channels}

-- What has passed over the channels so far: the bytes that the terminal channel, which is the up channel 1,
-- has given, and those that the first down channel has taken.
pub record Log (R : Type 0) : Type 0 where
  pub received : R → Bytes
  pub sent : R → Bytes

-- What the third-party crate promises of its channels, and that there is a down channel, which
-- `attach_rtt` waits for.
pub record IsChannels {R : Type 0} (ch : Channels R) (lg : Log R) : Type 0 where
  pub read_fits :
      (i room : ℕ) (r : R) (bs : Bytes) (r' : R)
      → ch.read i room r ≡ (some bs, r')
      → length bs ≤ room
  pub read_gives :
      (i room : ℕ) (r : R) (bs : Bytes) (r' : R)
      → ch.read i room r ≡ (some bs, r')
      → lg.received r' ≡ lg.received r ++ (if i == 1 then bs else [])
  pub read_keeps :
      (i room : ℕ) (r : R) (bs : Bytes) (r' : R)
      → ch.read i room r ≡ (some bs, r')
      → lg.sent r' ≡ lg.sent r
  pub write_fits :
      (bs : Bytes) (r : R) (n : ℕ) (r' : R) → ch.write bs r ≡ (some n, r') → n ≤ length bs
  pub write_takes :
      (bs : Bytes) (r : R) (n : ℕ) (r' : R)
      → ch.write bs r ≡ (some n, r')
      → lg.sent r' ≡ lg.sent r ++ take n bs
  pub write_keeps :
      (bs : Bytes) (r : R) (n : ℕ) (r' : R)
      → ch.write bs r ≡ (some n, r')
      → lg.received r' ≡ lg.received r
  pub has_down : (r : R) → 0 < ch.down_channels r

-- In this state a reading or a writing of the channels fails.
abbrev pub FailsAt : {R : Type 0} → Channels R → R → Type 0
FailsAt ch r =
    ((i : ℕ) × (room : ℕ) × ((ch.read i room r).0 ≡ none))
    ⊎ ((bs : Bytes) × ((ch.write bs r).0 ≡ none))

-- Some readings of the channels lead to a state in which a reading or a writing fails.
abbrev pub FailsFrom : {R : Type 0} → Channels R → Log R → R → Type 0
FailsFrom {R} ch lg r =
    (r' : R) × ((t : Bytes) × (lg.received r' ≡ lg.received r ++ t))
    × (lg.sent r' ≡ lg.sent r)
    × FailsAt ch r'
