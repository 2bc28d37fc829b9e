-- ===== src/Replay/EndToEnd.antt =====
-- What src/bin/capture.rs wrote, src/bin/replay.rs plays.
use rtltcp.Prelude.{
  true, ℕ, ◌<◌, ◌≡◌, false, List, [], ◌++◌, length, refl, All, arith, Option, some, none,
}
use rtltcp.Io.{ErrorKind, Result, ok, Outcome, done, failed, or_exit, settled}
use rtltcp.Io.Read.{Reader, sending}
use rtltcp.Io.Write.{File, Socket, socket_write_all}
use rtltcp.Capture.Header.{healthy}
use rtltcp.Recorder
use rtltcp.Recorder.Program as Capturing
use rtltcp.Recorder.Content.{Short, recorded, recorded-Fits, capture-recorded}
use rtltcp.Capture.{CaptureHeader, read_header}
use rtltcp.Replay.{Options, Surroundings, Replay, after_magic, after_header, replay_loop, replay}
use rtltcp.Replay.Commands.{Line}
use rtltcp.Replay.Ending.{gives_up, attending_ends}
use rtltcp.Prelude.Loop.{loop}
use rtltcp.Replay.Program.{Outside, Finished, surroundings, starting, attend, joined, play, main}
use rtltcp.Replay.Delivery.{payloads_of, pauses, replay-Fits}

-- A capture in a new file without faults, from a server that sends its magic packet whole, no read
-- giving 2 ^ 32 bytes, then played once to a client that takes every write and never quits, with
-- fuel for one round more than there are chunks: the client gets the server's magic packet and then
-- the bytes that were read before the capture's loop ended, in their order; the pauses are those
-- between the time stamps of the capture, if paced.
pub replay-capture :
    (taken : Recorder.Options) (magic : List ℕ) (s : Reader) (rs : List Recorder.Round)
    (env : Surroundings) (args : Options) (fuel : ℕ)
    → length magic ≡ 12
    → All Short rs
    → ((n : ℕ) → env.client_quit n ≡ false)
    → args.loop_mode ≡ false
    → length (recorded taken rs) < fuel
    → (f : File) × (r : Replay) × (Recorder.capture taken (sending magic ++ s) rs (healthy [] 0)
        ≡ ok f)
      × (replay env args fuel (sending f.content) (record { sent = []; faults = [] }) ≡ ok (some r))
      × (r.client.sent ≡ magic ++ payloads_of (recorded taken rs))
      × (r.slept ≡ pauses args none (recorded taken rs))
replay-capture taken magic s rs env args fuel twelve short running once enough =
    let (f, written, content) = capture-recorded taken magic s rs twelve short in
    let (r, played, sent, slept) =
      replay-Fits env args (record { magic_payload = magic }) (recorded taken rs) fuel []
        (omega arith) (recorded-Fits taken rs short) running once enough in
    (f, r, written, rw content played, sent, slept)

module _ (o : Outside) (args : Options) (fuel rounds : ℕ) (client : Socket) (r : Replay)
    (c : List Line) (cloned : o.clone_for_commands ≡ ok tt)
    (attended : loop (attend o) rounds 0 [] ≡ some c) where
  abbrev Plays : Result ErrorKind (Option Finished) → Type 0
  Plays m = m ≡ ok (some (record { player = r; commands = c }))

  from_magic :
      (rest : Reader) (w : Outcome Socket ErrorKind (Unit {0}))
      → after_magic (surroundings o) args fuel rest w ≡ ok (some r)
      → Plays (
          or_exit
            (settled w)
            λ w. or_exit o.clone_for_commands λ u. ok (play o args fuel rounds rest w.1))
  unfolding after_magic play joined
  from_magic rest (failed e k) h = cc
  from_magic rest (done u k) h =
      let played : replay_loop (surroundings o) args fuel (starting rest k) ≡ some r = cc in
      simp (cloned, played, attended)

  from_header :
      (bound : o.bind ≡ ok tt) (accepted : o.accept ≡ ok client)
      → (h : Outcome Reader ErrorKind CaptureHeader)
      → after_header (surroundings o) args fuel client h ≡ ok (some r)
      → Plays (
          or_exit (settled h) λ header. or_exit o.bind λ u. or_exit o.accept λ client.
            or_exit
              (settled (socket_write_all header.0.magic_payload client))
              λ w. or_exit o.clone_for_commands λ u. ok (play o args fuel rounds header.1 w.1))
  unfolding after_header play attend
  from_header bound accepted (failed e rest) h = cc
  from_header bound accepted (done header rest) h =
      rw (bound, accepted) (from_magic rest (socket_write_all header.magic_payload client) h)

  -- The whole program does what `replay` does.
  main-replay :
      (file : Reader)
      → o.open_file ≡ ok file
      → o.bind ≡ ok tt
      → o.accept ≡ ok client
      → replay (surroundings o) args fuel file client ≡ ok (some r)
      → Plays (main o args fuel rounds)
  unfolding main replay attend
  main-replay file opened bound accepted h =
      rw opened (from_header bound accepted (read_header file) h)

-- The two tools as a whole. A capture from a server that sends its magic packet whole, into a new
-- file without faults, no read giving 2 ^ 32 bytes; then a replay of that file, without `--loop`, to
-- a client that takes every write, whatever it sends, with fuel for one round more than there are
-- chunks, and for a round of the command thread in which its read times out with the flag up, or fails
-- otherwise: if nothing fails before, both programs finish, and the client gets the server's magic
-- packet and then the bytes that were read before the capture's loop ended, in their order; the
-- pauses are those between the time stamps of the capture, if paced.
pub main-recorded :
    (o : Capturing.Outside) (taken : Recorder.Options) (magic : List ℕ) (s : Reader)
    (rs : List Recorder.Round) (p : Outside) (args : Options) (fuel rounds n : ℕ)
    → o.set_handler ≡ ok tt
    → o.connect ≡ ok (sending magic ++ s)
    → o.create ≡ ok (healthy [] 0)
    → length magic ≡ 12
    → All Short rs
    → p.bind ≡ ok tt
    → p.accept ≡ ok (record { sent = []; faults = [] })
    → p.clone_for_commands ≡ ok tt
    → args.loop_mode ≡ false
    → length (recorded taken rs) < fuel
    → n < rounds
    → gives_up (p.reader_quit n) (p.heard n) ≡ true
    → (f : File) × (r : Finished) × (Capturing.main o taken rs ≡ ok f)
      × (main (record p { open_file = ok (sending f.content) }) args fuel rounds ≡ ok (some r))
      × (r.player.client.sent ≡ magic ++ payloads_of (recorded taken rs))
      × (r.player.slept ≡ pauses args none (recorded taken rs))
main-recorded o taken magic s rs p args fuel rounds n handler connected created twelve short bound
      accepted cloned once enough few up =
    let (f, r, written, played, sent, slept) =
      replay-capture taken magic s rs (surroundings p) args fuel twelve short (λ n. refl) once
        enough in
    let q : Outside = record p { open_file = ok (sending f.content) } in
    let (c, attended) = attending_ends q rounds n few up in
    (
      f,
      record { player = r; commands = c },
      Capturing.main-capture o taken (sending magic ++ s) rs (healthy [] 0) f handler connected
          created written,
      main-replay q args fuel rounds (record { sent = []; faults = [] }) r c cloned attended
          (sending f.content) refl bound accepted played,
      sent,
      slept,
    )
