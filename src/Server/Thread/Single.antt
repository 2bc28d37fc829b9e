-- ===== src/Server/Thread/Single.antt =====
-- The control thread of `run_serve_single`: no encryption.
use rtltcp.Prelude.{ℕ, List, [], ◌∷◌, Option}
use rtltcp.Io.Duplex.{final, send_all}
use rtltcp.Control.{cmd_chain_detect}
use rtltcp.Server.{
  Controller, match_command, command_byte, payload_u32, payload_i32, on_set_frequency,
  on_set_sample_rate, on_set_gain_mode, on_set_tuner_gain, on_set_ppm, on_set_agc, on_unknown,
}
use rtltcp.Server.Thread.{Tick, Thread, on_board, control_loop}

abbrev pub chain_detect_ack : List ℕ
chain_detect_ack = cmd_chain_detect ∷ 0x00 ∷ 0x00 ∷ 0x00 ∷ 0x00 ∷ []

-- A failed acknowledgement is only logged.
unfoldable pub acknowledge :
    {Handle Session : Type 0} → Thread Handle Session → Thread Handle Session
acknowledge s = record s { stream = final (send_all chain_detect_ack s.stream) }

abbrev pub plain : Unit {0} → List ℕ → List ℕ × Unit {0}
plain x buf = (buf, x)

module _ (device : Controller) where
  open device use {Handle}

  unfoldable pub single_command :
      Tick → List ℕ → Thread Handle (Unit {0}) → Thread Handle (Unit {0})
  single_command tick buf s =
      match_command (command_byte buf) (on_board s (on_set_frequency device (payload_u32 buf)))
        (on_board s (on_set_sample_rate device (payload_u32 buf)))
        (on_board s (on_set_gain_mode device (payload_i32 buf)))
        (on_board s (on_set_tuner_gain device (payload_i32 buf)))
        (on_board s (on_set_ppm device (payload_i32 buf)))
        (on_board s (on_set_agc device (payload_u32 buf))) (acknowledge s)
        (on_board s (on_unknown device))

  unfoldable pub single_loop :
      ℕ → (ℕ → Tick) → Thread Handle (Unit {0}) → Option (Thread Handle (Unit {0}))
  single_loop fuel ticks s = control_loop plain single_command fuel ticks s
