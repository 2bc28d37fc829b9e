-- ===== src/Tests/Server.antt =====
-- Runs of the control threads.
use rtltcp.Prelude.{
  ℕ, suc, ◌*◌, ◌≡◌, refl, true, false, List, [], ◌∷◌, ◌++◌, none, some, All, arith,
}
use rtltcp.Prelude.Int.{pos, negsuc}
use rtltcp.Prelude.Loop.{again}
use rtltcp.Io.{would_block}
use rtltcp.Io.Read.{Reader, fail, sending}
use rtltcp.Control.RateLimiter.{RateLimiter}
use rtltcp.Server.{Board}
use rtltcp.Server.Commands.{Command, frequency, ppm, gain_mode}
use rtltcp.Server.Thread.{Tick, Thread, control_round}
use rtltcp.Server.Thread.Rounds.{control_round_timeout}
use rtltcp.Server.Thread.Single.{plain, single_command}
use rtltcp.Server.Thread.Master.{Session, master_loop}
use rtltcp.Server.Safety.{master_loop_safe}
use rtltcp.Server.Delivery.{frames, let_through, perform_all}
use rtltcp.Server.Frames.{master_loop-frames}
use rtltcp.Tests.Fixtures.{Call, InRange, logger, striped, striped-CipherLaws}

-- A round each 60 ms.
abbrev steady : ℕ → Tick
steady i = record { should_exit = false; now = suc i * 60_000_000; nonce = [] }

abbrev idle : Board (List Call)
idle = record {
  ctl = record { poisoned = false; value = [] };
  agc_state = record { enabled = true };
  unknown_command_count = 0;
}

abbrev limiter : RateLimiter
limiter = record { last_command = 0; min_interval = 50_000_000 }

abbrev thread : {S : Type 0} → Reader → S → Thread (List Call) S
thread r x = record {
  stream = record { incoming = r; outgoing = record { sent = []; faults = [] } };
  board = idle;
  rate_limiter = limiter;
  session = x;
}

-- A frequency of 100.5 MHz, one out of range, and part of a frame before a time-out.
abbrev chatter : Reader
chatter =
    sending (1 ∷ 5 ∷ 253 ∷ 130 ∷ 32 ∷ 1 ∷ 255 ∷ 255 ∷ 255 ∷ 255 ∷ 1 ∷ 2 ∷ [])
    ++ (fail would_block ∷ sending (3 ∷ []))

abbrev orders : List Command
orders = frequency 100_500_000 ∷ ppm (negsuc 49) ∷ gain_mode (pos 1) ∷ []

abbrev keyed : Session ℕ
keyed = record { read_cipher = some 4; write_cipher = some 9; encryption_nonces = none }

master_loop_safe_example :
    (t : Thread (List Call) (Session ℕ)) × (master_loop logger striped
        (some [])
        20
        steady
        (thread chatter keyed)
      ≡ some t)
    × All InRange t.board.ctl.value
master_loop_safe_example =
    master_loop_safe logger (All InRange) (λ f d h p. (h, p)) (λ r d h p. (h, p))
      (λ g d h p. (h, p)) (λ p d h q. (h, q)) (λ d p. (tt, p)) (λ d p. (tt, p)) striped (some []) 20
      steady (thread chatter keyed) (omega arith) tt

master_loop-frames_example :
    (t : Thread (List Call) (Session ℕ)) × (master_loop logger striped
        (some [])
        4
        steady
        (thread (sending (striped.apply_keystream 4 (frames orders)).0) keyed)
      ≡ some t)
    × (t.board ≡ perform_all logger (let_through steady 0 limiter orders) idle)
master_loop-frames_example =
    master_loop-frames logger striped (some []) steady orders 4
      (thread (sending (striped.apply_keystream 4 (frames orders)).0) keyed) 4 striped-CipherLaws
      (λ i. refl) (omega arith) refl refl (omega arith)

control_round_timeout_example :
    control_round plain
      (single_command logger)
      steady
      0
      (thread (sending (1 ∷ 2 ∷ []) ++ (fail would_block ∷ sending (3 ∷ []))) tt)
    ≡ again (thread (sending (3 ∷ [])) tt)
control_round_timeout_example =
    control_round_timeout plain (single_command logger) steady 0
      (thread (sending (1 ∷ 2 ∷ []) ++ (fail would_block ∷ sending (3 ∷ []))) tt) (1 ∷ 2 ∷ [])
      would_block (sending (3 ∷ [])) (omega arith) refl refl
