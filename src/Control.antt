-- ===== src/Control.antt =====
-- The protocol constants and the argument checks of src/control.rs.
pub mod Whitelist
pub mod AgcState
pub mod RateLimiter
pub mod Ranges
use rtltcp.Prelude.{ℕ, Bool, List, [], ◌∷◌, ◌++◌, not, ◌&&◌, leb, if◌then◌else◌}
use rtltcp.Prelude.Int.{ℤ, pos, negsuc, leb_ℤ}
use rtltcp.Io.{Result, ok, err}
use rtltcp.Error.{
  Message, frequency_out_of_range, sample_rate_out_of_range, ppm_out_of_range,
  tuner_gain_out_of_range,
}

abbrev pub command_header_size : ℕ
command_header_size = 5

abbrev pub cmd_set_frequency : ℕ
cmd_set_frequency = 0x01

abbrev pub cmd_set_sample_rate : ℕ
cmd_set_sample_rate = 0x02

abbrev pub cmd_set_gain_mode : ℕ
cmd_set_gain_mode = 0x03

abbrev pub cmd_set_tuner_gain : ℕ
cmd_set_tuner_gain = 0x04

abbrev pub cmd_set_ppm : ℕ
cmd_set_ppm = 0x05

abbrev pub cmd_set_agc : ℕ
cmd_set_agc = 0x08

abbrev pub cmd_chain_detect : ℕ
cmd_chain_detect = 0xf0

-- "RTL0", tuner type 5 and gain count 0x1d, both as four bytes with the highest first.
abbrev pub magic_packet : List ℕ
magic_packet = b'R' ∷ b'T' ∷ b'L' ∷ b'0' ∷ 0 ∷ 0 ∷ 0 ∷ 5 ∷ 0 ∷ 0 ∷ 0 ∷ 0x1d ∷ []

abbrev pub freq_min : ℕ
freq_min = 0

abbrev pub freq_max : ℕ
freq_max = 2_200_000_000

abbrev pub sample_rate_min : ℕ
sample_rate_min = 0

abbrev pub sample_rate_max : ℕ
sample_rate_max = 3_200_000

-- -200
abbrev pub ppm_min : ℤ
ppm_min = negsuc 199

abbrev pub ppm_max : ℤ
ppm_max = pos 200

abbrev pub tuner_gain_min : ℤ
tuner_gain_min = pos 0

abbrev pub tuner_gain_max : ℤ
tuner_gain_max = pos 500

-- 50 ms; durations are in nanoseconds.
abbrev pub command_rate_limit_interval : ℕ
command_rate_limit_interval = 50_000_000

-- A mutex is poisoned when a thread panicked while it held the lock.
pub record Mutex {ℓ} (T : Type ℓ) : Type ℓ where
  pub poisoned : Bool
  pub value : T

unfoldable pub with_control {ℓ} : {T : Type ℓ} → Mutex T → (T → T) → Mutex T
with_control ctl op = if ctl.poisoned then ctl else record ctl { value = op ctl.value }

unfoldable pub validate_frequency : ℕ → Result Message (Unit {0})
validate_frequency freq =
    if not (leb freq_min freq && leb freq freq_max)
    then err (frequency_out_of_range freq)
    else ok tt

unfoldable pub validate_sample_rate : ℕ → Result Message (Unit {0})
validate_sample_rate rate =
    if not (leb sample_rate_min rate && leb rate sample_rate_max)
    then err (sample_rate_out_of_range rate)
    else ok tt

unfoldable pub validate_ppm : ℤ → Result Message (Unit {0})
validate_ppm ppm =
    if not (leb_ℤ ppm_min ppm && leb_ℤ ppm ppm_max) then err (ppm_out_of_range ppm) else ok tt

unfoldable pub validate_tuner_gain : ℤ → Result Message (Unit {0})
validate_tuner_gain gain =
    if not (leb_ℤ tuner_gain_min gain && leb_ℤ gain tuner_gain_max)
    then err (tuner_gain_out_of_range gain)
    else ok tt
