-- ===== src/Tests/Links.antt =====
-- Runs of the encryption and of the chain of proxy and server.
use rtltcp.Prelude.{
  ℕ, suc, ◌*◌, ◌≡◌, refl, true, false, List, [], ◌∷◌, ◌++◌, none, some, arith, take,
}
use rtltcp.Prelude.Int.{pos}
use rtltcp.Io.{ok, done}
use rtltcp.Io.Read.{sending}
use rtltcp.Control.RateLimiter.{RateLimiter}
use rtltcp.Encryption.Wrappers.{writer, reader, write_bufs, write_all, read_to_end}
use rtltcp.Encryption.Transport.{writing, encrypted_roundtrip, write_all_short}
use rtltcp.Server.{Board}
use rtltcp.Server.Commands.{Command, frequency, sample_rate, tuner_gain}
use rtltcp.Server.Delivery.{frames, let_through, perform_all}
use rtltcp.Server.Thread.{Tick, Thread}
use rtltcp.Server.Thread.Master.{Session, master_loop}
use rtltcp.Proxy.{probe, connect_upstream}
use rtltcp.Proxy.Agreement.{link}
use rtltcp.Proxy.Plain.{connect_streaming}
use rtltcp.Proxy.Forward.{forward_loop}
use rtltcp.Proxy.Forward.Chain.{forwarding, chain_commands}
use rtltcp.Tests.Fixtures.{Call, logger, stripes, striped, striped-CipherLaws}

encrypted_roundtrip_example :
    (write_bufs striped
        ((7 ∷ 8 ∷ []) ∷ (9 ∷ []) ∷ [])
        (writer striped (record { taken = []; answers = [] }) [] [])
      ≡ done tt (writing striped striped-CipherLaws (7 ∷ 9 ∷ 9 ∷ []) 3))
    × (read_to_end striped 3 (reader striped (ok (7 ∷ []) ∷ ok (9 ∷ 9 ∷ []) ∷ []) [] [])
        ≡ done (7 ∷ 8 ∷ 9 ∷ []) (record { inner = []; cipher = 3 }))
encrypted_roundtrip_example =
    encrypted_roundtrip striped striped-CipherLaws [] [] ((7 ∷ 8 ∷ []) ∷ (9 ∷ []) ∷ [])
      ((7 ∷ []) ∷ (9 ∷ 9 ∷ []) ∷ []) (omega arith) (unfold stripes in refl)

write_all_short_example :
    write_all striped
      (4 ∷ 4 ∷ 4 ∷ [])
      (record { inner = record { taken = []; answers = ok 1 ∷ [] }; cipher = 0 })
    ≡ done tt (
        writing striped striped-CipherLaws
          (take 1 (stripes 0 (4 ∷ 4 ∷ 4 ∷ [])) ++ stripes 3 (4 ∷ 4 ∷ []))
          5)
write_all_short_example =
    write_all_short striped striped-CipherLaws 4 (4 ∷ 4 ∷ []) [] 0 1 (omega arith) (omega arith)

-- Twelve bytes each.
abbrev magic : List ℕ
magic = b'R' ∷ b'T' ∷ b'L' ∷ b'0' ∷ 0 ∷ 0 ∷ 0 ∷ 5 ∷ 0 ∷ 0 ∷ 0 ∷ 29 ∷ []

abbrev mine : List ℕ
mine = 1 ∷ 2 ∷ 3 ∷ 4 ∷ 5 ∷ 6 ∷ 7 ∷ 8 ∷ 9 ∷ 10 ∷ 11 ∷ 12 ∷ []

abbrev theirs : List ℕ
theirs = 12 ∷ 11 ∷ 10 ∷ 9 ∷ 8 ∷ 7 ∷ 6 ∷ 5 ∷ 4 ∷ 3 ∷ 2 ∷ 1 ∷ []

abbrev steady : ℕ → Tick
steady i = record { should_exit = false; now = suc i * 60_000_000; nonce = theirs }

abbrev idle : Board (List Call)
idle = record {
  ctl = record { poisoned = false; value = [] };
  agc_state = record { enabled = true };
  unknown_command_count = 0;
}

abbrev limiter : RateLimiter
limiter = record { last_command = 0; min_interval = 50_000_000 }

-- Six samples, the first after the packet.
connect_streaming_example :
    connect_upstream striped
      (ok (link (sending magic ++ (sending (127 ∷ 128 ∷ 126 ∷ 129 ∷ 127 ∷ 130 ∷ []) ++ [])) []))
      mine
      (some [])
      1
    ≡ ok (record {
      stream = link (sending (130 ∷ []) ++ []) probe;
      is_chain = false;
      read_cipher = none;
      write_cipher = none;
      magic_packet = magic;
    })
connect_streaming_example =
    connect_streaming striped (some []) mine magic (127 ∷ 128 ∷ 126 ∷ 129 ∷ 127 ∷ 130 ∷ []) 1 [] []
      (omega arith) refl (omega arith) refl

abbrev orders : List Command
orders = frequency 100_500_000 ∷ sample_rate 2_048_000 ∷ tuner_gain (pos 200) ∷ []

abbrev server : Thread (List Call) (Session ℕ)
server = record {
  stream = link (sending (stripes 0 (frames (let_through steady 0 limiter orders)))) [];
  board = idle;
  rate_limiter = limiter;
  session = record { read_cipher = some 0; write_cipher = some 7; encryption_nonces = none };
}

chain_commands_example :
    (r : RateLimiter) × (k' : ℕ) × (t : Thread (List Call) (Session ℕ)) × (forward_loop striped 4
        steady
        (forwarding striped striped-CipherLaws steady
          (λ i. refl)
          (sending (frames orders))
          limiter
          0
          [])
      ≡ some (
          forwarding striped striped-CipherLaws steady
            (λ i. refl)
            []
            r
            k'
            (stripes 0 (frames (let_through steady 0 limiter orders)))))
    × (master_loop logger striped (some []) 4 steady server ≡ some t)
    × (t.board
        ≡ perform_all logger
            (let_through steady 0 limiter (let_through steady 0 limiter orders))
            idle)
chain_commands_example =
    chain_commands striped striped-CipherLaws steady (λ i. refl) logger (some []) steady orders 4
      limiter 0 server (λ i. refl) (omega arith) (omega arith) refl refl
