-- ===== src/Tests/Serve.antt =====
-- Runs of the single-client mode as a whole.
use text.Mathlib.Text.{◌==◌ as str_eq}
use rtltcp.Prelude.{
  ℕ, ◌%◌, ◌≡◌, refl, true, false, List, [], ◌∷◌, ◌++◌, none, some, All, arith, if◌then◌else◌,
}
use rtltcp.Io.{ok, timed_out}
use rtltcp.Io.Read.{Reader, fail, sending}
use rtltcp.Io.Write.{socket_write_all}
use rtltcp.Io.Duplex.{set_read_timeout}
use rtltcp.Io.BufWriter.{empty, buffered_write_all, flush}
use rtltcp.Bytes.{u64_mod}
use rtltcp.Control.Whitelist.{Addresses, check_whitelist}
use rtltcp.Args.{Args}
use rtltcp.Proxy.Agreement.{link}
use rtltcp.Server.Masters.{set_timeouts}
use rtltcp.Serve.{
  Outside, Event, round, samples, end_of_reading, signal, cancelling, finished, Running,
  with_writer, bind_master_port, open_client, with_device, watched, open_single, begin, run,
  after_greeting, serve_single,
}
use rtltcp.Serve.Whole.{Sent}
use rtltcp.Serve.Samples.{serve_single-Sent}
use rtltcp.Serve.Shutdown.{serve_single_stops}
use rtltcp.Serve.Safety.{serve_single_safe}
use rtltcp.Tests.Fixtures.{Call, InRange, logger}

abbrev pub local : Args
local = record {
  mode = "serve";
  address = "127.0.0.1";
  master_port = 1234;
  slave_port = none;
  max_slaves = 10;
  upstream = none;
  key = none;
  key_file = none;
  device_index = 0;
  buffers = 8;
  tcp_buffers = 2;
  read_timeout = 30;
  write_timeout = 30;
  whitelist = [];
}

abbrev pub toy_net : Addresses
toy_net = record {
  IpAddr = ℕ;
  IpNet = ℕ;
  parse_ip = λ t. if str_eq t "10" then some 10 else none;
  parse_net = λ t. none;
  to_canonical = λ ip. ip;
  contains = λ n ip. false;
}

abbrev magic : List ℕ
magic = b'R' ∷ b'T' ∷ b'L' ∷ b'0' ∷ 0 ∷ 0 ∷ 0 ∷ 5 ∷ 0 ∷ 0 ∷ 0 ∷ 29 ∷ []

-- The probe, a frequency, and silence.
abbrev heard : Reader
heard =
    sending (0xf0 ∷ 0x50 ∷ 0x52 ∷ 0x4f ∷ 0x58 ∷ 1 ∷ 5 ∷ 253 ∷ 130 ∷ 32 ∷ [])
    ++ (fail timed_out ∷ [])

abbrev outside : Outside (List Call)
outside = record {
  Listener = Unit {0};
  passed = none;
  bind = λ address port. ok tt;
  accept = λ listener. ok (link heard [], "10");
  clone_for_shutdown = ok tt;
  open_device = λ index. ok [];
  set_handler = ok tt;
  clone_for_control = ok tt;
}

client-opened : open_single logger toy_net magic outside local ≡ ok (link heard [], [])
unfolding open_single open_client with_device watched bind_master_port check_whitelist set_timeouts
    set_read_timeout
client-opened = refl

abbrev early : List Event
early = round 60_000_000 ∷ []

abbrev late : List Event
late = samples (127 ∷ 128 ∷ []) ∷ round 120_000_000 ∷ samples (126 ∷ 129 ∷ 127 ∷ []) ∷ []

abbrev last : List Event
last = cancelling ∷ round 180_000_000 ∷ cancelling ∷ []

serve_single-Sent_example :
    (s : Running logger) × (serve_single logger toy_net magic outside local 0 0 early
        (late ++ (end_of_reading ∷ last))
      ≡ ok s)
    × Sent (magic ∷ (127 ∷ 128 ∷ []) ∷ (126 ∷ 129 ∷ 127 ∷ []) ∷ []) s.control.stream.outgoing.sent
    × (s.total_bytes_sent ≡ 5 % u64_mod)
serve_single-Sent_example =
    serve_single-Sent logger toy_net magic outside local 0 0 early (late ++ (end_of_reading ∷ last))
      heard [] client-opened (refl, tt) (refl, (refl, (refl, (refl, (refl, (refl, (refl, tt)))))))

-- With a signal, and the control thread left waiting before the packet.
abbrev interrupted : List Event
interrupted = late ++ (signal ∷ [])

abbrev served : Running logger
served =
    run logger (interrupted ++ (end_of_reading ∷ last))
      (record (with_writer logger (empty 2 magic)
        (begin logger toy_net magic outside local 0 0 (link heard []) [])) { reading = true })

session-served :
    serve_single logger toy_net magic outside local 0 0 [] (interrupted ++ (end_of_reading ∷ last))
    ≡ ok served
unfolding serve_single after_greeting open_single open_client with_device watched bind_master_port
    check_whitelist set_timeouts set_read_timeout run buffered_write_all flush socket_write_all
session-served = refl

serve_single_stops_example : (served.should_exit ≡ true) × (served.cancel ≡ finished)
serve_single_stops_example =
    serve_single_stops logger toy_net magic outside local 0 0 [] interrupted last served
      session-served (omega arith)

newly_opened : (index : ℕ) (ctl : List Call) → outside.open_device index ≡ ok ctl → All InRange ctl
newly_opened index [] e = tt
newly_opened index (c ∷ ctl) e = cc

serve_single_safe_example : All InRange served.control.board.ctl.value
serve_single_safe_example =
    serve_single_safe logger (All InRange) (λ f d h p. (h, p)) (λ r d h p. (h, p))
      (λ g d h p. (h, p)) (λ p d h q. (h, q)) (λ d p. (tt, p)) (λ d p. (tt, p)) toy_net magic
      outside newly_opened local 0 0 [] (interrupted ++ (end_of_reading ∷ last)) served
      session-served
