-- ===== src/Server.antt =====
-- The commands of the serve modes, of src/main.rs: what one frame of a client does to the device.
-- The device handle of the crate rtlsdr_mt is a parameter. Log lines are left out.
pub mod Commands
pub mod Thread
pub mod Masters
pub mod Safety
pub mod Delivery
pub mod Frames
pub mod Modes
use rtltcp.Prelude.{
  ℕ, ◌+◌, ◌*◌, ◌%◌, Bool, List, [], ◌∷◌, Option, none, some, ◌==◌, drop, if◌then◌else◌,
}
use rtltcp.Prelude.Int.{ℤ, pos, ltb_ℤ}
use rtltcp.Io.{Outcome, done, failed, is_ok}
use rtltcp.Bytes.{u64_mod, signed32, from_be_bytes}
use rtltcp.Control.{
  cmd_set_frequency, cmd_set_sample_rate, cmd_set_gain_mode, cmd_set_tuner_gain, cmd_set_ppm,
  cmd_set_agc, cmd_chain_detect, Mutex, with_control, validate_frequency, validate_sample_rate,
  validate_ppm, validate_tuner_gain,
}
use rtltcp.Control.AgcState.{AgcState, enable, disable}

pub record Controller : Type 1 where
  pub Handle : Type 0
  pub DeviceError : Type 0
  pub set_center_freq : ℕ → Handle → Outcome Handle DeviceError (Unit {0})
  pub set_sample_rate : ℕ → Handle → Outcome Handle DeviceError (Unit {0})
  pub set_tuner_gain : ℤ → Handle → Outcome Handle DeviceError (Unit {0})
  pub set_ppm : ℤ → Handle → Outcome Handle DeviceError (Unit {0})
  pub enable_agc : Handle → Outcome Handle DeviceError (Unit {0})
  pub disable_agc : Handle → Outcome Handle DeviceError (Unit {0})

-- The device after a call. Of an error the program only writes a log line.
abbrev pub called {ℓ κ} : {S : Type ℓ} {E : Type κ} → Outcome S E (Unit {0}) → S
called (done a s) = s
called (failed e s) = s

-- What the threads of a server share.
pub record Board (Handle : Type 0) : Type 0 where
  pub ctl : Mutex Handle
  pub agc_state : AgcState
  pub unknown_command_count : ℕ

-- The `match` on the first byte of a frame.
unfoldable pub match_command {ℓ} : {A : Type ℓ} → ℕ → A → A → A → A → A → A → A → A → A
match_command cmd frequency sample_rate gain_mode tuner_gain ppm agc chain_detect unknown =
    if cmd == cmd_set_frequency
    then frequency
    else if cmd == cmd_set_sample_rate
    then sample_rate
    else if cmd == cmd_set_gain_mode
    then gain_mode
    else if cmd == cmd_set_tuner_gain
    then tuner_gain
    else if cmd == cmd_set_ppm
    then ppm
    else if cmd == cmd_set_agc
    then agc
    else if cmd == cmd_chain_detect
    then chain_detect
    else unknown

abbrev pub command_byte : List ℕ → ℕ
command_byte [] = 0
command_byte (b ∷ bs) = b

-- The four bytes after the first, as a `u32` and as an `i32`.
abbrev pub payload_u32 : List ℕ → ℕ
payload_u32 buf = from_be_bytes (drop 1 buf)

abbrev pub payload_i32 : List ℕ → ℤ
payload_i32 buf = signed32 (payload_u32 buf)

module _ (device : Controller) where
  open device use {
    Handle, set_center_freq, set_sample_rate, set_tuner_gain, set_ppm, enable_agc, disable_agc,
  }

  unfoldable pub on_set_frequency : ℕ → Board Handle → Board Handle
  on_set_frequency freq b =
      if is_ok (validate_frequency freq)
      then record b { ctl = with_control b.ctl (λ guard. called (set_center_freq freq guard)) }
      else b

  unfoldable pub on_set_sample_rate : ℕ → Board Handle → Board Handle
  on_set_sample_rate sample_rate b =
      if is_ok (validate_sample_rate sample_rate)
      then record b {
        ctl = with_control b.ctl (λ guard. called (set_sample_rate sample_rate guard));
      }
      else b

  agc_off : Board Handle → Board Handle
  agc_off b = record b {
    ctl = with_control b.ctl (λ guard. called (disable_agc guard));
    agc_state = (disable b.agc_state).0;
  }

  agc_on : Board Handle → Board Handle
  agc_on b = record b {
    ctl = with_control b.ctl (λ guard. called (enable_agc guard));
    agc_state = (enable b.agc_state).0;
  }

  unfoldable pub on_set_gain_mode : ℤ → Board Handle → Board Handle
  unfolding agc_on agc_off
  on_set_gain_mode gain_mode b = if ltb_ℤ (pos 0) gain_mode then agc_off b else agc_on b

  unfoldable pub on_set_tuner_gain : ℤ → Board Handle → Board Handle
  on_set_tuner_gain gain b =
      if is_ok (validate_tuner_gain gain)
      then record b { ctl = with_control b.ctl (λ guard. called (set_tuner_gain gain guard)) }
      else b

  unfoldable pub on_set_ppm : ℤ → Board Handle → Board Handle
  on_set_ppm ppm b =
      if is_ok (validate_ppm ppm)
      then record b { ctl = with_control b.ctl (λ guard. called (set_ppm ppm guard)) }
      else b

  unfoldable pub on_set_agc : ℕ → Board Handle → Board Handle
  unfolding agc_on agc_off
  on_set_agc agc b = if agc == 1 then agc_on b else agc_off b

  -- The counter is a `u64`.
  unfoldable pub on_unknown : Board Handle → Board Handle
  on_unknown b = record b { unknown_command_count = (b.unknown_command_count + 1) % u64_mod }
