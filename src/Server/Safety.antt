-- ===== src/Server/Safety.antt =====
-- That the control threads of src/main.rs hand the device only values in their documented ranges,
-- whatever a client sends, and that they end when the client is gone.
use rtltcp.Prelude.{
  ℕ, ◌≤◌, ◌<◌, ◌≡◌, refl, ap, Bool-cases, inl, inr, List, Option, none, some, length, arith, ◌==◌,
}
use rtltcp.Prelude.Int.{ℤ, pos, ltb_ℤ}
use rtltcp.Io.{is_ok, return}
use rtltcp.Io.Duplex.{
  Duplex, final, recv_exact, send_all, send_all_incoming, length-recv_exact, >>=-reads,
}
use rtltcp.Encryption.{StreamCipher, server_nonce_exchange}
use rtltcp.Control.{
  Mutex, with_control, validate_frequency, validate_sample_rate, validate_ppm, validate_tuner_gain,
}
use rtltcp.Control.Ranges.{
  IsFrequency, IsSampleRate, IsPpm, IsTunerGain, validate_frequency_lem, validate_sample_rate_lem,
  validate_ppm_lem, validate_tuner_gain_lem,
}
use rtltcp.Server.{
  Controller, Board, called, match_command, on_set_frequency, on_set_sample_rate, on_set_gain_mode,
  on_set_tuner_gain, on_set_ppm, on_set_agc, on_unknown, command_byte, payload_u32, payload_i32,
}
use rtltcp.Prelude.Loop.{state}
use rtltcp.Server.Thread.{Tick, Thread, on_board, control_round}
use rtltcp.Server.Thread.Single.{acknowledge, single_command, single_loop, plain}
use rtltcp.Server.Thread.Master.{Session, decrypt, on_chain_detect, master_command, master_loop}
use rtltcp.Server.Thread.Rounds.{pending, control_round_keeps, control_loop_total}

pub match_command_keeps :
    {A : Type 0} (Q : A → Type 0) (cmd : ℕ) (f r m g p a c u : A)
    → Q f
    → Q r
    → Q m
    → Q g
    → Q p
    → Q a
    → Q c
    → Q u
    → Q (match_command cmd f r m g p a c u)
unfolding match_command
match_command_keeps Q cmd f r m g p a c u hf hr hm hg hp ha hc hu = ground arith

pending-acknowledge :
    {Handle S : Type 0} (s : Thread Handle S) → pending (acknowledge s) ≡ pending s
unfolding acknowledge
pending-acknowledge s = ap length (send_all_incoming _ s.stream)

single_reads :
    (device : Controller) (tick : Tick) (buf : List ℕ) (s : Thread device.Handle (Unit {0}))
    → pending (single_command device tick buf s) ≤ pending s
unfolding single_command match_command
single_reads device tick buf s = ground (arith, pending-acknowledge s)

exchange_reads :
    (mine key : List ℕ) (d : Duplex)
    → length (final (server_nonce_exchange mine key d)).incoming ≤ length d.incoming
unfolding server_nonce_exchange
exchange_reads mine key d = >>=-reads (recv_exact 12) _ d _ (length-recv_exact 12 d) λ peer d' h.
    >>=-reads (send_all mine) (λ _. return (mine, peer)) d' _
      (omega (arith, ap length (send_all_incoming mine d'))) (λ _ d'' h'. h')

module _ (device : Controller) (cipher : StreamCipher) where
  chain_detect_reads :
      (key : Option (List ℕ)) (tick : Tick) (s : Thread device.Handle (Session cipher.State))
      → pending (on_chain_detect device cipher key tick s) ≤ pending s
  unfolding on_chain_detect
  chain_detect_reads none tick s = omega (arith, pending-acknowledge s)
  chain_detect_reads (some key) tick s =
      let s' = acknowledge s in
      let bound = exchange_reads tick.nonce key s'.stream in
      ground (arith, pending-acknowledge s, bound)

  master_reads :
      (key : Option (List ℕ)) (tick : Tick) (buf : List ℕ)
      (s : Thread device.Handle (Session cipher.State))
      → pending (master_command device cipher key tick buf s) ≤ pending s
  unfolding master_command match_command
  master_reads key tick buf s = ground (arith, chain_detect_reads key tick s)

  chain_detect_board :
      (key : Option (List ℕ)) (tick : Tick) (s : Thread device.Handle (Session cipher.State))
      → (on_chain_detect device cipher key tick s).board ≡ s.board
  unfolding on_chain_detect acknowledge
  chain_detect_board none tick s = refl
  chain_detect_board (some key) tick s = ground arith

module _ (device : Controller) (P : device.Handle → Type 0)
    (frequency : (f : ℕ) (d : device.Handle)
      → IsFrequency f
      → P d
      → P (called (device.set_center_freq f d)))
    (sample_rate : (r : ℕ) (d : device.Handle)
      → IsSampleRate r
      → P d
      → P (called (device.set_sample_rate r d)))
    (tuner_gain : (g : ℤ) (d : device.Handle)
      → IsTunerGain g
      → P d
      → P (called (device.set_tuner_gain g d)))
    (ppm : (p : ℤ) (d : device.Handle) → IsPpm p → P d → P (called (device.set_ppm p d)))
    (agc_on : (d : device.Handle) → P d → P (called (device.enable_agc d)))
    (agc_off : (d : device.Handle) → P d → P (called (device.disable_agc d))) where
  abbrev Holds : Board device.Handle → Type 0
  Holds b = P b.ctl.value

  with_control_keeps :
      (f : device.Handle → device.Handle) (m : Mutex device.Handle)
      → P m.value
      → (P m.value → P (f m.value))
      → P (with_control m f).value
  unfolding with_control
  with_control_keeps f m h k = elim (Bool-cases m.poisoned) [ inl t ↦ rw t h | inr t ↦ rw t (k h) ]

  frequency_keeps :
      (f : ℕ) (b : Board device.Handle) → Holds b → Holds (on_set_frequency device f b)
  unfolding on_set_frequency
  frequency_keeps f b h = elim (Bool-cases (is_ok (validate_frequency f))) [
    | inl t ↦ rw t (with_control_keeps _ b.ctl h (frequency f _ (validate_frequency_lem f t)))
    | inr t ↦ rw t h
  ]

  sample_rate_keeps :
      (r : ℕ) (b : Board device.Handle) → Holds b → Holds (on_set_sample_rate device r b)
  unfolding on_set_sample_rate
  sample_rate_keeps r b h = elim (Bool-cases (is_ok (validate_sample_rate r))) [
    | inl t ↦ rw t (with_control_keeps _ b.ctl h (sample_rate r _ (validate_sample_rate_lem r t)))
    | inr t ↦ rw t h
  ]

  tuner_gain_keeps :
      (g : ℤ) (b : Board device.Handle) → Holds b → Holds (on_set_tuner_gain device g b)
  unfolding on_set_tuner_gain
  tuner_gain_keeps g b h = elim (Bool-cases (is_ok (validate_tuner_gain g))) [
    | inl t ↦ rw t (with_control_keeps _ b.ctl h (tuner_gain g _ (validate_tuner_gain_lem g t)))
    | inr t ↦ rw t h
  ]

  ppm_keeps : (p : ℤ) (b : Board device.Handle) → Holds b → Holds (on_set_ppm device p b)
  unfolding on_set_ppm
  ppm_keeps p b h = elim (Bool-cases (is_ok (validate_ppm p))) [
    | inl t ↦ rw t (with_control_keeps _ b.ctl h (ppm p _ (validate_ppm_lem p t)))
    | inr t ↦ rw t h
  ]

  gain_mode_keeps :
      (m : ℤ) (b : Board device.Handle) → Holds b → Holds (on_set_gain_mode device m b)
  unfolding on_set_gain_mode
  gain_mode_keeps m b h = elim (Bool-cases (ltb_ℤ (pos 0) m)) [
    | inl t ↦ rw t (with_control_keeps _ b.ctl h (agc_off _))
    | inr t ↦ rw t (with_control_keeps _ b.ctl h (agc_on _))
  ]

  agc_keeps : (a : ℕ) (b : Board device.Handle) → Holds b → Holds (on_set_agc device a b)
  unfolding on_set_agc
  agc_keeps a b h = elim (Bool-cases (a == 1)) [
    | inl t ↦ rw t (with_control_keeps _ b.ctl h (agc_on _))
    | inr t ↦ rw t (with_control_keeps _ b.ctl h (agc_off _))
  ]

  commands_keep :
      {S : Type 0} (buf : List ℕ) (s chain : Thread device.Handle S)
      → Holds s.board
      → Holds chain.board
      → Holds
          (match_command
            (command_byte buf)
            (on_board s (on_set_frequency device (payload_u32 buf)))
            (on_board s (on_set_sample_rate device (payload_u32 buf)))
            (on_board s (on_set_gain_mode device (payload_i32 buf)))
            (on_board s (on_set_tuner_gain device (payload_i32 buf)))
            (on_board s (on_set_ppm device (payload_i32 buf)))
            (on_board s (on_set_agc device (payload_u32 buf)))
            chain
            (on_board s (on_unknown device))).board
  commands_keep buf s chain h k =
      match_command_keeps (λ t. Holds t.board) (command_byte buf)
        (on_board s (on_set_frequency device (payload_u32 buf)))
        (on_board s (on_set_sample_rate device (payload_u32 buf)))
        (on_board s (on_set_gain_mode device (payload_i32 buf)))
        (on_board s (on_set_tuner_gain device (payload_i32 buf)))
        (on_board s (on_set_ppm device (payload_i32 buf)))
        (on_board s (on_set_agc device (payload_u32 buf))) chain (on_board s (on_unknown device))
        (frequency_keeps _ s.board h) (sample_rate_keeps _ s.board h) (gain_mode_keeps _ s.board h)
        (tuner_gain_keeps _ s.board h) (ppm_keeps _ s.board h) (agc_keeps _ s.board h) k
        (unfold on_unknown in h)

  single_command_keeps :
      (tick : Tick) (buf : List ℕ) (s : Thread device.Handle (Unit {0}))
      → Holds s.board
      → Holds (single_command device tick buf s).board
  unfolding single_command acknowledge
  single_command_keeps tick buf s q = commands_keep buf s (acknowledge s) q q

  pub single_round_keeps :
      (ticks : ℕ → Tick) (i : ℕ) (s : Thread device.Handle (Unit {0}))
      → P s.board.ctl.value
      → P (state (control_round plain (single_command device) ticks i s)).board.ctl.value
  single_round_keeps ticks i s p =
      control_round_keeps plain (single_command device) Holds single_command_keeps ticks i s p

  -- Whatever arrives, and in whatever pieces and with whatever failures, the control thread of the
  -- single-client mode ends within one round for each arrival and one more; and whatever the device
  -- keeps under calls with values in their ranges, and under switching the automatic gain, it still
  -- has at the end.
  pub single_loop_safe :
      (fuel : ℕ) (ticks : ℕ → Tick) (s : Thread device.Handle (Unit {0}))
      → pending s < fuel
      → P s.board.ctl.value
      → (t : Thread device.Handle (Unit {0})) × (single_loop device fuel ticks s ≡ some t)
        × P t.board.ctl.value
  unfolding single_loop
  single_loop_safe fuel ticks s h p =
      control_loop_total plain (single_command device) (single_reads device) Holds
        single_command_keeps fuel ticks s h p

  -- Whatever arrives, and in whatever pieces and with whatever failures, encrypted or not, the master
  -- control thread of the multi-client mode ends within one round for each arrival and one more; and
  -- whatever the device keeps under calls with values in their ranges, and under switching the
  -- automatic gain, it still has at the end.
  pub master_loop_safe :
      (cipher : StreamCipher) (key : Option (List ℕ)) (fuel : ℕ) (ticks : ℕ → Tick)
      (s : Thread device.Handle (Session cipher.State))
      → pending s < fuel
      → P s.board.ctl.value
      → (t : Thread device.Handle (Session cipher.State)) × (master_loop device cipher key fuel
            ticks s
          ≡ some t)
        × P t.board.ctl.value
  unfolding master_loop
  master_loop_safe cipher key fuel ticks s h p =
      control_loop_total (decrypt device cipher) (master_command device cipher key)
        (master_reads device cipher key) Holds
        (λ tick buf s q.
          unfold master_command in
          commands_keep buf s (on_chain_detect device cipher key tick s) q
            (rw (chain_detect_board device cipher key tick s) q))
        fuel ticks s h p
