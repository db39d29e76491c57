-- ===== src/Tests/Targets.antt =====
-- The theorems on src/proxy/targets/mod.rs at concrete inputs.
use farcri_rs.Prelude.{true, false, none, some, codes, ◌≡◌, refl}
use farcri_rs.Arch.{
  cortex_m33_fpu, rv32imac, rv64imac, rv32gc, rv64gc, Extensions, riscv, x64, x32, BuildOpt,
  build_opt,
}
use farcri_rs.Proxy.Targets.{nucleo_f401re, try_parse_target}
use farcri_rs.Arch.Text.{to_string, parsed, from_str}
use farcri_rs.Arch.RoundTrip.{from_str-to_string}
use farcri_rs.Arch.Total.{Settles, from_str-Settles}
use farcri_rs.Arch.Options.{spelled, spelled-build_opt}

abbrev imac : Extensions
imac = record { e = false; m = true; a = true; c = true; f = false; d = false }

abbrev embedded : Extensions
embedded = record { e = true; m = true; a = false; c = true; f = false; d = false }

from_str-to_string_example : from_str (to_string (riscv x64 imac)) ≡ parsed (riscv x64 imac)
from_str-to_string_example = from_str-to_string (riscv x64 imac) refl

from_str-Settles_example : Settles (from_str (codes "rv32i+m-q"))
from_str-Settles_example = from_str-Settles (codes "rv32i+m-q")

spelled-build_opt_example :
    (opt : BuildOpt) × (build_opt (riscv x32 embedded) ≡ some opt) × (spelled opt ≡ embedded)
spelled-build_opt_example = spelled-build_opt x32 embedded

-- The constants that no name stands for have a text all the same.
constants_parse :
    (from_str (codes "cortex_m33+fpu") ≡ parsed cortex_m33_fpu)
    × (from_str (codes "rv32i+m+a+c") ≡ parsed rv32imac)
    × (from_str (codes "rv64i+m+a+c") ≡ parsed rv64imac)
    × (from_str (codes "rv32i+m+a+c+f+d") ≡ parsed rv32gc)
    × (from_str (codes "rv64i+m+a+c+f+d") ≡ parsed rv64gc)
unfolding from_str
constants_parse = (refl, refl, refl, refl, refl)

board_found : try_parse_target (codes "nucleo_f401re") ≡ some nucleo_f401re
unfolding try_parse_target
board_found = refl

board_unknown : try_parse_target (codes "nucleo_f103") ≡ none
unfolding try_parse_target
board_unknown = refl
