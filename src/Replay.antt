-- ===== src/Replay.antt =====
-- `rtltcp-replay`, src/bin/replay.rs: the file's header, the magic packet and the loop that sends
-- the chunks to the one client; the thread that logs the client's commands is in Replay/Commands.
-- What `f64` gives for a pause, the quit flag and what `seek` answers are outside.
pub mod Delivery
pub mod EndToEnd
pub mod Commands
pub mod Program
pub mod Ending
use rtltcp.Prelude.{
  ℕ, suc, ◌+◌, ◌-◌, ◌%◌, Bool, List, [], ◌∷◌, ◌++◌, Option, none, some, ltb, if◌then◌else◌,
}
use rtltcp.Prelude.Loop.{Flow, again, break, loop}
use rtltcp.Io.{ErrorKind, Result, ok, err, Outcome, done, failed}
use rtltcp.Io.Read.{Reader}
use rtltcp.Io.Write.{Socket, socket_write_all}
use rtltcp.Bytes.{u64_mod}
use rtltcp.Capture.{CaptureChunk, CaptureHeader, read_header, read_chunk}

-- `paced` is `speed > 0.0`, and `pause` is `(delta as f64 / speed) as u64`.
pub record Options : Type 0 where
  pub loop_mode : Bool
  pub paced : Bool
  pub pause : ℕ → ℕ

-- By the number of the round: the quit flag, and what `seek` gives.
pub record Surroundings : Type 0 where
  pub client_quit : ℕ → Bool
  pub seek : ℕ → Result ErrorKind (Unit {0})

-- `first_chunk` is the file from the first chunk on, `ahead` from the place of the next read on,
-- and `slept` are the pauses so far.
pub record Replay : Type 0 where
  pub first_chunk : Reader
  pub ahead : Reader
  pub client : Socket
  pub prev_timestamp : Option ℕ
  pub slept : List ℕ

after_seek : Replay → Result ErrorKind (Unit {0}) → Flow Replay
after_seek s (ok u) = again (record s { ahead = s.first_chunk; prev_timestamp = none })
after_seek s (err e) = break s

-- The difference of two 64-bit numbers, wrapped around.
abbrev pub elapsed_since : ℕ → ℕ → ℕ
elapsed_since timestamp_ns prev = (timestamp_ns + u64_mod - prev) % u64_mod

sleep_since : Options → ℕ → Option ℕ → List ℕ → List ℕ
sleep_since args timestamp_ns none slept = slept
sleep_since args timestamp_ns (some prev) slept =
    let delta_ns = args.pause (elapsed_since timestamp_ns prev) in
    if ltb 0 delta_ns then slept ++ (delta_ns ∷ []) else slept

pace : Options → CaptureChunk → Replay → Replay
unfolding sleep_since
pace args chunk s =
    if args.paced
    then record s {
      slept = sleep_since args chunk.timestamp_ns s.prev_timestamp s.slept;
      prev_timestamp = some chunk.timestamp_ns;
    }
    else s

after_write : Replay → Outcome Socket ErrorKind (Unit {0}) → Flow Replay
after_write s (done u k) = again (record s { client = k })
after_write s (failed e k) = break (record s { client = k })

send_chunk : Options → CaptureChunk → Replay → Flow Replay
unfolding pace after_write
send_chunk args chunk s =
    let p = pace args chunk s in after_write p (socket_write_all chunk.payload p.client)

-- What a read gives, and what is left of the file.
on_chunk :
    Surroundings
    → Options
    → ℕ
    → Replay
    → Outcome Reader ErrorKind (Option CaptureChunk)
    → Flow Replay
unfolding send_chunk after_seek
on_chunk env args i s (done (some chunk) rest) =
    let t = record s { ahead = rest } in
    if env.client_quit i then break t else send_chunk args chunk t
on_chunk env args i s (done none rest) =
    let t = record s { ahead = rest } in
    if args.loop_mode then after_seek t (env.seek i) else break t
on_chunk env args i s (failed e rest) = break (record s { ahead = rest })

unfoldable pub replay_round : Surroundings → Options → ℕ → Replay → Flow Replay
unfolding on_chunk
replay_round env args i s = on_chunk env args i s (read_chunk s.ahead)

-- The loop of the program on fuel; `none` means that the fuel ran out.
unfoldable pub replay_loop : Surroundings → Options → ℕ → Replay → Option Replay
replay_loop env args fuel s = loop (replay_round env args) fuel 0 s

-- The magic packet went to the client, or the program ended.
after_magic :
    Surroundings
    → Options
    → ℕ
    → Reader
    → Outcome Socket ErrorKind (Unit {0})
    → Result ErrorKind (Option Replay)
unfolding replay_loop
after_magic env args fuel rest (done u k) = ok (
    replay_loop env args fuel
      (record { first_chunk = rest; ahead = rest; client = k; prev_timestamp = none; slept = [] }))
after_magic env args fuel rest (failed e k) = err e

after_header :
    Surroundings
    → Options
    → ℕ
    → Socket
    → Outcome Reader ErrorKind CaptureHeader
    → Result ErrorKind (Option Replay)
unfolding after_magic
after_header env args fuel client (done header rest) =
    after_magic env args fuel rest (socket_write_all header.magic_payload client)
after_header env args fuel client (failed e rest) = err e

-- The program once the file is open: the client is the one that `accept` gives.
unfoldable pub replay :
    Surroundings → Options → ℕ → Reader → Socket → Result ErrorKind (Option Replay)
unfolding after_header
replay env args fuel file client = after_header env args fuel client (read_header file)
