-- ===== src/Tests/Program.antt =====
-- Runs of the command line, the slave acceptor, the client loop, the recorder and the replay.
use Prim.Native.String.{String}
use text.Mathlib.Text.{◌==◌ as str_eq}
use rtltcp.Prelude.{
  ℕ, ◌≡◌, refl, true, false, List, [], ◌∷◌, ◌++◌, Option, none, some, arith, if◌then◌else◌,
}
use rtltcp.Prelude.Loop.{break, state, loop}
use rtltcp.Io.{Result, ok, err, would_block, timed_out, not_connected}
use rtltcp.Io.Read.{sending}
use rtltcp.Io.Write.{File, Socket}
use rtltcp.Args.{Args, run_serve_multi, main, validate_args, parse_encryption_key}
use rtltcp.Args.Validation.{validate_args_iff, main-IsValid}
use rtltcp.Control.Whitelist.{Addresses}
use rtltcp.Acceptor
use rtltcp.Acceptor.Slots.{accept_loop_full}
use rtltcp.Stream.{Poll, got, closed, lagged, write_client_loop}
use rtltcp.Stream.Delivery.{delivered, write_client_loop-delivered}
use rtltcp.Capture.{CaptureChunk}
use rtltcp.Capture.Header.{healthy}
use rtltcp.Capture.Format.{stored, header_bytes}
use rtltcp.Recorder
use rtltcp.Recorder.Content.{recorded, capture-recorded}
use rtltcp.Replay.{Options, Surroundings, replay_round}
use rtltcp.Replay.Delivery.{payloads_of, pauses, playing, repeated, replay_loop-passes}

abbrev options : Args
options = record {
  mode = "serve";
  address = "127.0.0.1";
  master_port = 1234;
  slave_port = some 1235;
  max_slaves = 2;
  upstream = none;
  key = some "k";
  key_file = none;
  device_index = 0;
  buffers = 8;
  tcp_buffers = 4096;
  read_timeout = 30;
  write_timeout = 30;
  whitelist = [];
}

main-options : main options ≡ ok run_serve_multi
unfolding main validate_args
main-options = refl

validate_args_iff_example : validate_args options ≡ ok tt
validate_args_iff_example =
    (validate_args_iff options).1 (main-IsValid options run_serve_multi main-options).0

abbrev key_32 : List ℕ
key_32 =
    0 ∷ 1 ∷ 2 ∷ 3 ∷ 4 ∷ 5 ∷ 6 ∷ 7 ∷ 8 ∷ 9 ∷ 10 ∷ 11 ∷ 12 ∷ 13 ∷ 14 ∷ 15 ∷ 16 ∷ 17 ∷ 18 ∷ 19 ∷ 20
    ∷ 21 ∷ 22 ∷ 23 ∷ 24 ∷ 25 ∷ 26 ∷ 27 ∷ 28 ∷ 29 ∷ 30 ∷ 31 ∷ []

abbrev decoder : String → Option (List ℕ)
decoder t = if str_eq t "k" then some key_32 else none

abbrev no_files : String → Result rtltcp.Io.ErrorKind (List ℕ)
no_files path = err not_connected

parse_options : parse_encryption_key decoder no_files options ≡ ok (some key_32)
unfolding parse_encryption_key
parse_options = refl

-- Addresses that are numbers, without networks.
abbrev toy_net : Addresses
toy_net = record {
  IpAddr = ℕ;
  IpNet = ℕ;
  parse_ip = λ t. if str_eq t "10" then some 10 else none;
  parse_net = λ t. none;
  to_canonical = λ ip. ip;
  contains = λ n ip. false;
}

abbrev calling : Socket
calling = record { sent = []; faults = [] }

abbrev visits : List Acceptor.Round
visits =
    record { should_exit = false; accept = Acceptor.Accept.connection calling "10" }
    ∷ record { should_exit = false; accept = Acceptor.Accept.refused would_block }
    ∷ record { should_exit = false; accept = Acceptor.Accept.connection calling "11" }
    ∷ []

abbrev full : Acceptor.Acceptor
full = record { count = 1; all_streams = calling ∷ []; clients = ("10", calling) ∷ [] }

accept_loop_full_example : state (Acceptor.accept_loop toy_net (1 ∷ []) [] 1 visits full) ≡ full
accept_loop_full_example = accept_loop_full toy_net (1 ∷ []) [] 1 visits full (omega arith)

abbrev polls : List Poll
polls =
    record { should_exit = false; received = got (1 ∷ 2 ∷ []) }
    ∷ record { should_exit = false; received = lagged 3 }
    ∷ record { should_exit = false; received = got (3 ∷ []) }
    ∷ record { should_exit = false; received = closed }
    ∷ []

write_client_loop-delivered_example :
    write_client_loop polls (record { sent = 9 ∷ []; faults = [] })
    ≡ break (record { sent = 9 ∷ 1 ∷ 2 ∷ 3 ∷ []; faults = [] })
unfolding delivered
write_client_loop-delivered_example = write_client_loop-delivered polls (9 ∷ [])

abbrev pub magic : List ℕ
magic = b'R' ∷ b'T' ∷ b'L' ∷ b'0' ∷ 0 ∷ 0 ∷ 0 ∷ 5 ∷ 0 ∷ 0 ∷ 0 ∷ 29 ∷ []

abbrev pub taken : Recorder.Options
taken = record { duration = 1; buffer_mem = 20 }

abbrev pub reads : List Recorder.Round
reads =
    record { should_exit = false; elapsed = 10; received = ok (5 ∷ 6 ∷ []); stamp = 20 }
    ∷ record { should_exit = false; elapsed = 30; received = err timed_out; stamp = 40 }
    ∷ record { should_exit = false; elapsed = 50; received = ok (7 ∷ []); stamp = 60 }
    ∷ record { should_exit = false; elapsed = 1_000_000_000; received = ok (8 ∷ []); stamp = 0 }
    ∷ []

abbrev pub chunks : List CaptureChunk
chunks =
    record { timestamp_ns = 20; payload = 5 ∷ 6 ∷ [] }
    ∷ record { timestamp_ns = 60; payload = 7 ∷ [] }
    ∷ []

pub recorded-reads : recorded taken reads ≡ chunks
unfolding recorded
recorded-reads = refl

capture-recorded_example :
    (f : File) × (Recorder.capture taken (sending magic ++ []) reads (healthy [] 0) ≡ ok f)
    × (f.content ≡ header_bytes (record { magic_payload = magic }) ++ stored (recorded taken reads))
capture-recorded_example = capture-recorded taken magic [] reads refl (omega arith)

abbrev pub quiet : Surroundings
quiet = record { client_quit = λ i. false; seek = λ i. ok tt }

abbrev pub once : Options
once = record { loop_mode = false; paced = true; pause = λ delta. delta }

abbrev pub forever : Options
forever = record { loop_mode = true; paced = true; pause = λ delta. delta }

replay_loop-passes_example :
    loop
      (replay_round quiet forever)
      6
      0
      (playing (sending (stored chunks)) (sending (stored chunks)) [] none [])
    ≡ loop (replay_round quiet forever) 0 6 (
        playing
          (sending (stored chunks))
          (sending (stored chunks))
          (repeated 2 (payloads_of chunks))
          none
          (repeated 2 (pauses forever none chunks)))
replay_loop-passes_example =
    replay_loop-passes quiet forever chunks 2 0 0 [] [] (omega arith) (λ i. refl) (λ i. refl) refl
