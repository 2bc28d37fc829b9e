-- ===== src/Tests/Tools.antt =====
-- Runs of the two tools as whole programs.
use rtltcp.Prelude.{ℕ, List, ◌==◌, leb, if◌then◌else◌, ◌≡◌, refl, [], ◌∷◌, ◌++◌, none, some, arith}
use rtltcp.Io.{ErrorKind, Result, ok, err, timed_out}
use rtltcp.Io.Read.{Reader, sending}
use rtltcp.Io.Write.{File, Socket, socket_write_all}
use rtltcp.Capture.{CaptureChunk, CaptureHeader}
use rtltcp.Capture.Header.{healthy}
use rtltcp.Capture.Format.{header_bytes, stored}
use rtltcp.Capture.RoundTrip.{read_header-header_bytes}
use rtltcp.Recorder.Program as Capturing
use rtltcp.Recorder.Content.{recorded}
use rtltcp.Replay.Program.{Outside, Finished, main}
use rtltcp.Replay.Delivery.{payloads_of, pauses}
use rtltcp.Replay.Ending.{main_spins}
use rtltcp.Replay.EndToEnd.{main-recorded}
use rtltcp.Tests.Program.{magic, taken, reads, chunks, once, forever, recorded-reads}

-- A client that sends commands without an end, but for a pause after three of them.
abbrev heard : ℕ → Result ErrorKind (List ℕ)
heard n = if n == 3 then err timed_out else ok (1 ∷ 0 ∷ 0 ∷ 0 ∷ 9 ∷ [])

abbrev client : Socket
client = record { sent = []; faults = [] }

abbrev header : CaptureHeader
header = record { magic_payload = magic }

abbrev loaded : Reader → Outside
loaded file = record {
  open_file = ok file;
  bind = ok tt;
  accept = ok client;
  clone_for_commands = ok tt;
  seek = λ i. ok tt;
  heard = heard;
  reader_quit = λ i. leb 2 i;
}

-- A capture that ends in the middle of a chunk.
abbrev torn : Reader
torn = sending (header_bytes header ++ (stored chunks ++ (1 ∷ 2 ∷ 3 ∷ [])))

main_spins_example : main (loaded (sending (header_bytes header) ++ [])) forever 7 8 ≡ ok none
main_spins_example =
    main_spins (loaded (sending (header_bytes header) ++ [])) forever
      (sending (header_bytes header) ++ []) header client (record { sent = magic; faults = [] }) 7 8
      refl refl (read_header-header_bytes header [] (omega arith)) refl refl
      (unfold socket_write_all in refl) refl (λ i. refl)

abbrev server : Capturing.Outside
server = record {
  set_handler = ok tt;
  connect = ok (sending magic ++ []);
  create = ok (healthy [] 0);
}

main-recorded_example :
    (f : File) × (r : Finished) × (Capturing.main server taken reads ≡ ok f)
    × (main (loaded (sending f.content)) once 3 10 ≡ ok (some r))
    × (r.player.client.sent ≡ magic ++ payloads_of (recorded taken reads))
    × (r.player.slept ≡ pauses once none (recorded taken reads))
main-recorded_example =
    main-recorded server taken magic [] reads (loaded []) once 3 10 3 refl refl refl refl
      (omega arith) refl refl refl refl (rw recorded-reads (omega arith)) (omega arith) refl
