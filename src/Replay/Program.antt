-- ===== src/Replay/Program.antt =====
-- `main` of src/bin/replay.rs: the way to the one client, the loop and the thread beside it, and the
-- end. What the operating system answers is an argument.
use rtltcp.Prelude.{ℕ, Bool, false, List, [], Option, none, some}
use rtltcp.Io.{ErrorKind, Result, ok, err, Outcome, done, failed, or_exit, settled}
use rtltcp.Io.Read.{Reader}
use rtltcp.Io.Write.{Socket, socket_write_all}
use rtltcp.Prelude.Loop.{Flow, loop, map_flow}
use rtltcp.Capture.{read_header}
use rtltcp.Replay.{Options, Surroundings, Replay, replay_loop}
use rtltcp.Replay.Commands.{Line, CommandReader, after_command}

-- `seek` is asked for at the end of the capture. By the number of its round, `heard` is what a read of
-- the command thread gives, for as long as the client lives, and `reader_quit` the flag as the thread
-- finds it, which goes up when the loop is over. The loop itself never finds it up, since no other
-- thread sets it. (That a write to the client is never answered is left out.)
pub record Outside : Type 0 where
  pub open_file : Result ErrorKind Reader
  pub bind : Result ErrorKind (Unit {0})
  pub accept : Result ErrorKind Socket
  pub clone_for_commands : Result ErrorKind (Unit {0})
  pub seek : ℕ → Result ErrorKind (Unit {0})
  pub heard : ℕ → Result ErrorKind (List ℕ)
  pub reader_quit : ℕ → Bool

-- What the two threads leave.
pub record Finished : Type 0 where
  pub player : Replay
  pub commands : List Line

abbrev pub surroundings : Outside → Surroundings
surroundings o = record { client_quit = λ i. false; seek = o.seek }

abbrev pub starting : Reader → Socket → Replay
starting first_chunk client = record {
  first_chunk = first_chunk;
  ahead = first_chunk;
  client = client;
  prev_timestamp = none;
  slept = [];
}

-- A round of the command thread.
abbrev pub answer : Result ErrorKind (List ℕ) → Outcome Reader ErrorKind (List ℕ)
answer (ok buf) = done buf []
answer (err e) = failed e []

unfoldable pub attend : Outside → ℕ → List Line → Flow (List Line)
unfolding after_command
attend o i log =
    map_flow CommandReader.log (after_command (o.reader_quit i) log (answer (o.heard i)))

unfoldable pub joined : Option Replay → Option (List Line) → Option Finished
joined (some p) (some c) = some (record { player = p; commands = c })
joined (some p) none = none
joined none c = none

-- `none` means that the fuel ran out, that of the loop or `rounds`, that of the command thread.
unfoldable pub play : Outside → Options → ℕ → ℕ → Reader → Socket → Option Finished
unfolding joined
play o args fuel rounds first_chunk sent =
    joined (replay_loop (surroundings o) args fuel (starting first_chunk sent))
      (loop (attend o) rounds 0 [])

-- `err` is an exit with status 1.
unfoldable pub main : Outside → Options → ℕ → ℕ → Result ErrorKind (Option Finished)
unfolding play
main o args fuel rounds = or_exit o.open_file λ file. or_exit (settled (read_header file)) λ header.
    or_exit o.bind λ u. or_exit o.accept λ client.
      or_exit (settled (socket_write_all header.0.magic_payload client))
        λ w. or_exit o.clone_for_commands λ u. ok (play o args fuel rounds header.1 w.1)
