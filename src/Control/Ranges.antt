-- ===== src/Control/Ranges.antt =====
-- The ranges that the checks of src/control.rs stand for.
use rtltcp.Prelude.{ℕ, ◌≤◌, ◌≡◌, ◌↔◌, true, arith}
use rtltcp.Prelude.Int.{ℤ, ◌≤ℤ◌, pos, negsuc}
use rtltcp.Io.{is_ok}
use rtltcp.Control.{validate_frequency, validate_sample_rate, validate_ppm, validate_tuner_gain}

abbrev pub IsFrequency : ℕ → Type 0
IsFrequency f = f ≤ 2_200_000_000

abbrev pub IsSampleRate : ℕ → Type 0
IsSampleRate r = r ≤ 3_200_000

abbrev pub IsPpm : ℤ → Type 0
IsPpm p = (negsuc 199 ≤ℤ p) × (p ≤ℤ pos 200)

abbrev pub IsTunerGain : ℤ → Type 0
IsTunerGain g = (pos 0 ≤ℤ g) × (g ≤ℤ pos 500)

pub validate_frequency_lem : (f : ℕ) → is_ok (validate_frequency f) ≡ true → IsFrequency f
unfolding validate_frequency
validate_frequency_lem f h = ground arith

pub validate_sample_rate_lem : (r : ℕ) → is_ok (validate_sample_rate r) ≡ true → IsSampleRate r
unfolding validate_sample_rate
validate_sample_rate_lem r h = ground arith

pub validate_ppm_lem : (p : ℤ) → is_ok (validate_ppm p) ≡ true → IsPpm p
unfolding validate_ppm
validate_ppm_lem p h = ground arith

pub validate_tuner_gain_lem : (g : ℤ) → is_ok (validate_tuner_gain g) ≡ true → IsTunerGain g
unfolding validate_tuner_gain
validate_tuner_gain_lem g h = ground arith

pub frequency_accepted : (f : ℕ) → IsFrequency f → is_ok (validate_frequency f) ≡ true
unfolding validate_frequency
frequency_accepted f h = ground arith

pub sample_rate_accepted : (r : ℕ) → IsSampleRate r → is_ok (validate_sample_rate r) ≡ true
unfolding validate_sample_rate
sample_rate_accepted r h = ground arith

pub ppm_accepted : (p : ℤ) → IsPpm p → is_ok (validate_ppm p) ≡ true
unfolding validate_ppm
ppm_accepted p h = ground arith

pub tuner_gain_accepted : (g : ℤ) → IsTunerGain g → is_ok (validate_tuner_gain g) ≡ true
unfolding validate_tuner_gain
tuner_gain_accepted g h = ground arith

-- Each of the four checks accepts exactly the values of its documented range: a frequency up to
-- 2.2 GHz, a sample rate up to 3.2 MHz, a ppm correction from -200 to 200 and a tuner gain from 0
-- to 500 tenths of a dB.
pub validate_ranges :
    (f r : ℕ) (p g : ℤ)
    → ((is_ok (validate_frequency f) ≡ true) ↔ IsFrequency f)
      × ((is_ok (validate_sample_rate r) ≡ true) ↔ IsSampleRate r)
      × ((is_ok (validate_ppm p) ≡ true) ↔ IsPpm p)
      × ((is_ok (validate_tuner_gain g) ≡ true) ↔ IsTunerGain g)
validate_ranges f r p g = (
  (validate_frequency_lem f, frequency_accepted f),
  (validate_sample_rate_lem r, sample_rate_accepted r),
  (validate_ppm_lem p, ppm_accepted p),
  (validate_tuner_gain_lem g, tuner_gain_accepted g),
)
