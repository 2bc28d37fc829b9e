-- ===== src/Server/Thread/Master.antt =====
-- `spawn_master_control_thread`: commands may come encrypted, after a nonce exchange that the chain
-- detection starts.
use rtltcp.Prelude.{ℕ, List, Option, none, some}
use rtltcp.Io.{ErrorKind, Outcome, done, failed}
use rtltcp.Io.Duplex.{Duplex}
use rtltcp.Encryption.{StreamCipher, server_nonce_exchange}
use rtltcp.Server.{
  Controller, match_command, command_byte, payload_u32, payload_i32, on_set_frequency,
  on_set_sample_rate, on_set_gain_mode, on_set_tuner_gain, on_set_ppm, on_set_agc, on_unknown,
}
use rtltcp.Server.Thread.{Tick, Thread, on_board, control_loop}
use rtltcp.Server.Thread.Single.{acknowledge}

-- `encryption_nonces` is shared with the thread that writes to the master.
pub record Session (State : Type 0) : Type 0 where
  pub read_cipher : Option State
  pub write_cipher : Option State
  pub encryption_nonces : Option (List ℕ × List ℕ)

module _ (device : Controller) (cipher : StreamCipher) where
  open device use {Handle}
  open cipher use {State}

  unfoldable pub decrypt : Session State → List ℕ → List ℕ × Session State
  decrypt x buf = elim x.read_cipher [
    | none ↦ (buf, x)
    | some c ↦ (
      (cipher.apply_keystream c buf).0,
      record x { read_cipher = some (cipher.apply_keystream c buf).1 },
    )
  ]

  -- Where the exchange fails the session stays as it was.
  unfoldable pub exchanged :
      List ℕ
      → Thread Handle (Session State)
      → Outcome Duplex ErrorKind (List ℕ × List ℕ)
      → Thread Handle (Session State)
  exchanged key s (done (my_nonce, peer_nonce) d) = record s {
    stream = d;
    session = record {
      read_cipher = some (cipher.new key peer_nonce);
      write_cipher = some (cipher.new key my_nonce);
      encryption_nonces = some (my_nonce, peer_nonce);
    };
  }
  exchanged key s (failed e d) = record s { stream = d }

  unfoldable pub on_chain_detect :
      Option (List ℕ) → Tick → Thread Handle (Session State) → Thread Handle (Session State)
  unfolding exchanged
  on_chain_detect none tick s = acknowledge s
  on_chain_detect (some key) tick s =
      let s' = acknowledge s in exchanged key s' (server_nonce_exchange tick.nonce key s'.stream)

  unfoldable pub master_command :
      Option (List ℕ)
      → Tick
      → List ℕ
      → Thread Handle (Session State)
      → Thread Handle (Session State)
  master_command encryption_key tick buf s =
      match_command (command_byte buf) (on_board s (on_set_frequency device (payload_u32 buf)))
        (on_board s (on_set_sample_rate device (payload_u32 buf)))
        (on_board s (on_set_gain_mode device (payload_i32 buf)))
        (on_board s (on_set_tuner_gain device (payload_i32 buf)))
        (on_board s (on_set_ppm device (payload_i32 buf)))
        (on_board s (on_set_agc device (payload_u32 buf))) (on_chain_detect encryption_key tick s)
        (on_board s (on_unknown device))

  unfoldable pub master_loop :
      Option (List ℕ)
      → ℕ
      → (ℕ → Tick)
      → Thread Handle (Session State)
      → Option (Thread Handle (Session State))
  master_loop encryption_key fuel ticks s =
      control_loop decrypt (master_command encryption_key) fuel ticks s
