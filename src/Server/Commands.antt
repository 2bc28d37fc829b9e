-- ===== src/Server/Commands.antt =====
-- The commands as a client means them, and the frames that carry them: a description of what the
-- `match cmd` of the control threads of src/main.rs is to do.
use rtltcp.Prelude.{
  ℕ, ◌<◌, ◌≡◌, refl, ap, ◌∙◌, Bool, true, List, ◌∷◌, length, ◌==◌, leb, ◌&&◌, arith, if◌then◌else◌,
}
use rtltcp.Prelude.Int.{ℤ, pos, negsuc, leb_ℤ}
use rtltcp.Bytes.{
  u32_mod, IsI32, pattern32, signed32, from_be_bytes, to_be_bytes_4, from_be_bytes-to_be_bytes_4,
  signed32-pattern32, pattern32-lt,
}
use rtltcp.Control.{
  Mutex, with_control, validate_frequency, validate_sample_rate, validate_ppm, validate_tuner_gain,
}
use rtltcp.Control.AgcState.{AgcState}
use rtltcp.Server.{
  Controller, Board, called, match_command, command_byte, payload_u32, payload_i32,
  on_set_frequency, on_set_sample_rate, on_set_gain_mode, on_set_tuner_gain, on_set_ppm, on_set_agc,
}

pub data Command : Type 0 where
  frequency sample_rate agc : ℕ → Command
  gain_mode tuner_gain ppm : ℤ → Command

-- The argument fits the four bytes of its frame.
abbrev pub Encodable : Command → Type 0
Encodable (frequency f) = f < u32_mod
Encodable (sample_rate r) = r < u32_mod
Encodable (agc a) = a < u32_mod
Encodable (gain_mode m) = IsI32 m
Encodable (tuner_gain g) = IsI32 g
Encodable (ppm p) = IsI32 p

pub encode : Command → List ℕ
encode (frequency f) = 1 ∷ to_be_bytes_4 f
encode (sample_rate r) = 2 ∷ to_be_bytes_4 r
encode (gain_mode m) = 3 ∷ to_be_bytes_4 (pattern32 m)
encode (tuner_gain g) = 4 ∷ to_be_bytes_4 (pattern32 g)
encode (ppm p) = 5 ∷ to_be_bytes_4 (pattern32 p)
encode (agc a) = 8 ∷ to_be_bytes_4 a

pub length-encode : (c : Command) → length (encode c) ≡ 5
unfolding encode to_be_bytes_4
length-encode (frequency f) = refl
length-encode (sample_rate r) = refl
length-encode (gain_mode m) = refl
length-encode (tuner_gain g) = refl
length-encode (ppm p) = refl
length-encode (agc a) = refl

module _ (device : Controller) where
  open device use {
    Handle, set_center_freq, set_sample_rate, set_tuner_gain, set_ppm, enable_agc, disable_agc,
  }

  -- One call of the device, where its handle is not poisoned.
  abbrev call : (Handle → Handle) → Board Handle → Board Handle
  call f b = record b {
    ctl = if b.ctl.poisoned then b.ctl else record b.ctl { value = f b.ctl.value };
  }

  -- The automatic gain is switched and remembered.
  abbrev switch : Bool → (Handle → Handle) → Board Handle → Board Handle
  switch on f b = record (call f b) { agc_state = record { enabled = on } }

  -- A value out of its range changes nothing.
  pub perform : Command → Board Handle → Board Handle
  perform (frequency f) b =
      if leb f 2_200_000_000 then call (λ d. called (set_center_freq f d)) b else b
  perform (sample_rate r) b =
      if leb r 3_200_000 then call (λ d. called (set_sample_rate r d)) b else b
  perform (gain_mode m) b =
      if leb_ℤ m (pos 0)
      then switch true (λ d. called (enable_agc d)) b
      else switch Bool.false (λ d. called (disable_agc d)) b
  perform (tuner_gain g) b =
      if leb_ℤ (pos 0) g && leb_ℤ g (pos 500) then call (λ d. called (set_tuner_gain g d)) b else b
  perform (ppm p) b =
      if leb_ℤ (negsuc 199) p && leb_ℤ p (pos 200) then call (λ d. called (set_ppm p d)) b else b
  perform (agc a) b =
      if a == 1
      then switch true (λ d. called (enable_agc d)) b
      else switch Bool.false (λ d. called (disable_agc d)) b

  pub on_set_frequency-perform :
      (f : ℕ) (b : Board Handle) → on_set_frequency device f b ≡ perform (frequency f) b
  unfolding on_set_frequency perform validate_frequency with_control
  on_set_frequency-perform f b = ground arith

  pub on_set_sample_rate-perform :
      (r : ℕ) (b : Board Handle) → on_set_sample_rate device r b ≡ perform (sample_rate r) b
  unfolding on_set_sample_rate perform validate_sample_rate with_control
  on_set_sample_rate-perform r b = ground arith

  pub on_set_tuner_gain-perform :
      (g : ℤ) (b : Board Handle) → on_set_tuner_gain device g b ≡ perform (tuner_gain g) b
  unfolding on_set_tuner_gain perform validate_tuner_gain with_control
  on_set_tuner_gain-perform g b = ground arith

  pub on_set_ppm-perform : (p : ℤ) (b : Board Handle) → on_set_ppm device p b ≡ perform (ppm p) b
  unfolding on_set_ppm perform validate_ppm with_control
  on_set_ppm-perform p b = ground arith

  pub on_set_gain_mode-perform :
      (m : ℤ) (b : Board Handle) → on_set_gain_mode device m b ≡ perform (gain_mode m) b
  unfolding on_set_gain_mode perform with_control rtltcp.Control.AgcState.enable
      rtltcp.Control.AgcState.disable
  on_set_gain_mode-perform m b = ground arith

  pub on_set_agc-perform : (a : ℕ) (b : Board Handle) → on_set_agc device a b ≡ perform (agc a) b
  unfolding on_set_agc perform with_control rtltcp.Control.AgcState.enable
      rtltcp.Control.AgcState.disable
  on_set_agc-perform a b = ground arith

-- The `match` on a frame takes the branch of the command that the frame carries, whatever the
-- branches do.
abbrev pub branch {ℓ} :
    {A : Type ℓ} → Command → (ℕ → A) → (ℕ → A) → (ℤ → A) → (ℤ → A) → (ℤ → A) → (ℕ → A) → A
branch (frequency x) f r m g p a = f x
branch (sample_rate x) f r m g p a = r x
branch (gain_mode x) f r m g p a = m x
branch (tuner_gain x) f r m g p a = g x
branch (ppm x) f r m g p a = p x
branch (agc x) f r m g p a = a x

signed_payload : (z : ℤ) → IsI32 z → signed32 (from_be_bytes (to_be_bytes_4 (pattern32 z))) ≡ z
signed_payload z h =
    ap signed32 (from_be_bytes-to_be_bytes_4 (pattern32 z) (pattern32-lt z))
    ∙ signed32-pattern32 z h

pub match_command-encode :
    {A : Type 0} (c : Command) (f r : ℕ → A) (m g p : ℤ → A) (a : ℕ → A) (chain unknown : A)
    → Encodable c
    → (let buf = encode c in
        match_command
          (command_byte buf)
          (f (payload_u32 buf))
          (r (payload_u32 buf))
          (m (payload_i32 buf))
          (g (payload_i32 buf))
          (p (payload_i32 buf))
          (a (payload_u32 buf))
          chain
          unknown)
      ≡ branch c f r m g p a
unfolding encode match_command
match_command-encode (frequency x) f r m g p a chain unknown h =
    ap f (from_be_bytes-to_be_bytes_4 x h)
match_command-encode (sample_rate x) f r m g p a chain unknown h =
    ap r (from_be_bytes-to_be_bytes_4 x h)
match_command-encode (gain_mode x) f r m g p a chain unknown h = ap m (signed_payload x h)
match_command-encode (tuner_gain x) f r m g p a chain unknown h = ap g (signed_payload x h)
match_command-encode (ppm x) f r m g p a chain unknown h = ap p (signed_payload x h)
match_command-encode (agc x) f r m g p a chain unknown h = ap a (from_be_bytes-to_be_bytes_4 x h)
