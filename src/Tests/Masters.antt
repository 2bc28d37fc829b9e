-- ===== src/Tests/Masters.antt =====
-- Runs of the accept loop of the multi-client mode.
use text.Mathlib.Text.{◌==◌ as str_eq}
use rtltcp.Prelude.{
  ℕ, suc, ◌*◌, ◌≡◌, refl, true, false, List, [], ◌∷◌, ◌++◌, none, some, arith, length,
  if◌then◌else◌,
}
use rtltcp.Prelude.Loop.{loop}
use rtltcp.Io.{ok, done}
use rtltcp.Io.Read.{Reader, read_exact, sending}
use rtltcp.Io.Write.{socket_write_all}
use rtltcp.Io.Duplex.{Duplex, recv_exact, send_all}
use rtltcp.Control.RateLimiter
use rtltcp.Control.Whitelist.{Addresses, check_whitelist}
use rtltcp.Encryption.{server_nonce_exchange}
use rtltcp.Server.{match_command}
use rtltcp.Server.Thread.{Tick, Thread, on_frame, after_read, control_round, control_loop}
use rtltcp.Server.Thread.Single.{acknowledge, chain_detect_ack}
use rtltcp.Server.Thread.Master.{
  Session, decrypt, exchanged, on_chain_detect, master_command, master_loop,
}
use rtltcp.Server.Masters.{Visit, Masters, connection, control_thread, master_round}
use rtltcp.Server.Masters.Writer.{spawn_writer, encrypting, nonces_reused}
use rtltcp.Tests.Fixtures.{Call, logger, striped}

abbrev toy_net : Addresses
toy_net = record {
  IpAddr = ℕ;
  IpNet = ℕ;
  parse_ip = λ t. if str_eq t "10" then some 10 else none;
  parse_net = λ t. none;
  to_canonical = λ ip. ip;
  contains = λ n ip. false;
}

abbrev nonce : List ℕ
nonce = 12 ∷ 11 ∷ 10 ∷ 9 ∷ 8 ∷ 7 ∷ 6 ∷ 5 ∷ 4 ∷ 3 ∷ 2 ∷ 1 ∷ []

abbrev theirs : List ℕ
theirs = 1 ∷ 2 ∷ 3 ∷ 4 ∷ 5 ∷ 6 ∷ 7 ∷ 8 ∷ 9 ∷ 10 ∷ 11 ∷ 12 ∷ []

abbrev steady : ℕ → Tick
steady i = record { should_exit = false; now = suc i * 60_000_000; nonce = nonce }

-- A proxy that probes, sends its nonce and leaves.
abbrev hello : Reader
hello = sending ((0xf0 ∷ 0x50 ∷ 0x52 ∷ 0x4f ∷ 0x58 ∷ []) ++ theirs)

abbrev caller : List ℕ → Duplex
caller sent = record { incoming = hello; outgoing = record { sent = sent; faults = [] } }

abbrev pub visit : Visit
visit = record {
  should_exit = false;
  accept = connection (caller []) "10";
  started = 0;
  started_later = 0;
  ticks = steady;
  exit_after = false;
}

abbrev fresh : Masters (List Call)
fresh = record {
  board = record {
    ctl = record { poisoned = false; value = [] };
    agc_state = record { enabled = true };
    unknown_command_count = 0;
  };
  encryption_nonces = none;
  all_streams = [];
}

abbrev thread_left : Thread (List Call) (Session ℕ)
thread_left = record {
  stream = record {
    incoming = [];
    outgoing = record { sent = 0 ∷ (chain_detect_ack ++ nonce); faults = [] };
  };
  board = fresh.board;
  rate_limiter = record { last_command = 60_000_000; min_interval = 50_000_000 };
  session = record {
    read_cipher = some 0;
    write_cipher = some 0;
    encryption_nonces = some (nonce, theirs);
  };
}

-- The control thread of the visit.
visit_run :
    master_loop logger striped (some []) (suc (length hello)) steady (
      control_thread logger striped toy_net
        (0 ∷ [])
        (some [])
        []
        30
        30
        visit
        (caller (0 ∷ []))
        fresh)
    ≡ some thread_left
unfolding master_loop control_loop control_round after_read on_frame decrypt master_command
    on_chain_detect exchanged acknowledge server_nonce_exchange loop recv_exact send_all read_exact
    socket_write_all match_command RateLimiter.check RateLimiter.new control_thread
visit_run = refl

passes : check_whitelist toy_net "10" [] ≡ ok tt
unfolding check_whitelist
passes = refl

nonces_reused_example :
    (s' : Masters (List Call)) × (master_round logger striped toy_net
        (0 ∷ [])
        (some [])
        []
        30
        30
        visit
        fresh
      ≡ some (done true s'))
    × ((control_thread logger striped toy_net
          (0 ∷ [])
          (some [])
          []
          30
          30
          visit
          (caller [])
          s').session.read_cipher
        ≡ none)
    × (spawn_writer (some []) (s'.encryption_nonces ∷ []) ≡ encrypting [] nonce)
nonces_reused_example =
    nonces_reused logger striped toy_net (0 ∷ []) [] [] 30 30 visit visit fresh hello [] "10"
      (caller []) thread_left nonce theirs [] (omega arith) (omega arith) refl refl refl passes
      visit_run refl
