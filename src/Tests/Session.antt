-- ===== src/Tests/Session.antt =====
-- Runs of a whole session of a proxy with a server, and of the two serve modes side by side.
use text.Mathlib.Text.{◌==◌ as str_eq}
use mathlib.Core.Option
use rtltcp.Prelude.{
  ℕ, suc, ◌+◌, ◌*◌, ◌<◌, ◌≡◌, refl, true, false, List, [], ◌∷◌, ◌++◌, map, none, some, arith,
  length, if◌then◌else◌,
}
use rtltcp.Prelude.Int.{pos}
use rtltcp.Io.{ok, done, would_block, timed_out}
use rtltcp.Io.Read.{Reader, fail, sending}
use rtltcp.Control.Whitelist.{Addresses, check_whitelist}
use rtltcp.Control.RateLimiter
use rtltcp.Control.RateLimiter.{RateLimiter, check}
use rtltcp.Server.{Board}
use rtltcp.Server.Commands.{frequency, sample_rate, tuner_gain, gain_mode}
use rtltcp.Server.Delivery.{let_through, perform_all}
use rtltcp.Server.Modes.{as_master, master_loop-eq-single_loop}
use rtltcp.Server.Thread.{Tick, Thread}
use rtltcp.Server.Thread.Idle.{timeouts, with_incoming, master_loop-timeouts}
use rtltcp.Server.Thread.Single.{single_loop}
use rtltcp.Server.Thread.Master.{Session, master_loop}
use rtltcp.Proxy.{UpstreamConnection, connect_upstream}
use rtltcp.Proxy.Agreement.{link}
use rtltcp.Proxy.Masters.{Proxied, masters_loop}
use rtltcp.Proxy.Masters.InStep.{Turn, visit_of, forwarded}
use rtltcp.Proxy.Session.{serving, chain_session}
use rtltcp.Tests.Fixtures.{Call, logger, striped, striped-CipherLaws}

abbrev toy_net : Addresses
toy_net = record {
  IpAddr = ℕ;
  IpNet = ℕ;
  parse_ip = λ t. if str_eq t "10" then some 10 else none;
  parse_net = λ t. none;
  to_canonical = λ ip. ip;
  contains = λ n ip. false;
}

abbrev magic : List ℕ
magic = b'R' ∷ b'T' ∷ b'L' ∷ b'0' ∷ 0 ∷ 0 ∷ 0 ∷ 5 ∷ 0 ∷ 0 ∷ 0 ∷ 29 ∷ []

abbrev mine : List ℕ
mine = 1 ∷ 2 ∷ 3 ∷ 4 ∷ 5 ∷ 6 ∷ 7 ∷ 8 ∷ 9 ∷ 10 ∷ 11 ∷ 12 ∷ []

abbrev theirs : List ℕ
theirs = 12 ∷ 11 ∷ 10 ∷ 9 ∷ 8 ∷ 7 ∷ 6 ∷ 5 ∷ 4 ∷ 3 ∷ 2 ∷ 1 ∷ []

abbrev steady : ℕ → Tick
steady i = record { should_exit = false; now = suc i * 60_000_000; nonce = theirs }

-- Two masters, of which the second is too fast at first.
abbrev turns : List Turn
turns =
    record {
      commands = frequency 100_500_000 ∷ sample_rate 2_048_000 ∷ [];
      ip = "10";
      started = 0;
      started_later = 0;
      ticks = steady;
    }
    ∷ record {
      commands = gain_mode (pos 1) ∷ tuner_gain (pos 200) ∷ [];
      ip = "10";
      started = 60_000_000;
      started_later = 60_000_000;
      ticks = steady;
    }
    ∷ []

abbrev idle : Board (List Call)
idle = record {
  ctl = record { poisoned = false; value = [] };
  agc_state = record { enabled = true };
  unknown_command_count = 0;
}

abbrev limiter : RateLimiter
limiter = record { last_command = 0; min_interval = 50_000_000 }

abbrev plain_session : Session ℕ
plain_session = record { read_cipher = none; write_cipher = none; encryption_nonces = none }

fuel_is_enough : length (forwarded turns) + 1 < 9
unfolding let_through RateLimiter.new check
fuel_is_enough = omega arith

chain_session_example :
    (u : UpstreamConnection striped) × (p : Proxied striped toy_net magic [] 30 30) × (t : Thread
      (List Call)
      (Session ℕ))
    × (connect_upstream striped
          (ok (link (sending t.stream.outgoing.sent ++ []) []))
          mine
          (some [])
          1
        ≡ ok u)
    × (u.is_chain ≡ true)
    × (u.magic_packet ≡ magic)
    × (masters_loop striped toy_net magic [] 30 30 (map visit_of turns) (record {
      write_cipher = u.write_cipher;
      upstream = record { poisoned = false; value = u.stream.outgoing };
    })
        ≡ some (done true p))
    × (master_loop logger striped (some []) 9 steady (
          serving logger striped striped-CipherLaws []
            (sending p.upstream.value.sent)
            magic
            idle
            limiter
            plain_session)
        ≡ some t)
    × (t.board
        ≡ perform_all logger
            (let_through steady 1 (check (steady 0).now limiter).0 (forwarded turns))
            idle)
chain_session_example =
    chain_session logger striped striped-CipherLaws toy_net [] mine magic [] 1 30 30 turns steady 9
      [] idle limiter plain_session (omega arith) (omega arith) (omega arith) refl refl refl
      (
        (unfold check_whitelist in refl, λ i. refl),
        ((unfold check_whitelist in refl, λ i. refl), tt),
      )
      ((omega arith, (omega arith, tt)), ((omega arith, (omega arith, tt)), tt)) (λ i. refl)
      (unfold check in refl) refl fuel_is_enough

-- The probe, a frequency, and a stream that ends in the middle of a frame.
abbrev chatter : Reader
chatter =
    sending (0xf0 ∷ 0x50 ∷ 0x52 ∷ 0x4f ∷ 0x58 ∷ 1 ∷ 5 ∷ 253 ∷ 130 ∷ 32 ∷ [])
    ++ (fail would_block ∷ sending (3 ∷ []))

abbrev caller : Thread (List Call) (Unit {0})
caller = record { stream = link chatter []; board = idle; rate_limiter = limiter; session = tt }

master_loop-eq-single_loop_example :
    master_loop logger striped none 20 steady (as_master logger striped plain_session caller)
    ≡ Option.map (as_master logger striped plain_session) (single_loop logger 20 steady caller)
master_loop-eq-single_loop_example =
    master_loop-eq-single_loop logger striped plain_session refl 20 steady caller

-- The flag is up, and a client that is connected sends nothing, twice.
abbrev up : ℕ → Tick
up i = record { should_exit = true; now = suc i * 60_000_000; nonce = theirs }

abbrev quiet : Thread (List Call) (Session ℕ)
quiet = record {
  stream = link [] [];
  board = idle;
  rate_limiter = limiter;
  session = plain_session;
}

master_loop-timeouts_example :
    master_loop logger striped none 2 up
      (with_incoming (timeouts (would_block ∷ timed_out ∷ []) ++ []) quiet)
    ≡ master_loop logger striped none 0
        (λ i. up (length (would_block ∷ timed_out ∷ []) + i))
        (with_incoming [] quiet)
master_loop-timeouts_example =
    master_loop-timeouts logger striped none up (would_block ∷ timed_out ∷ []) quiet [] 0
      (refl, (refl, tt))
