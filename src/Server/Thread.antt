-- ===== src/Server/Thread.antt =====
-- The two control threads of src/main.rs, `thread_ctl` of `run_serve_single` and
-- `spawn_master_control_thread`: one loop over what arrives from the client.
pub mod Single
pub mod Master
pub mod Rounds
pub mod Idle
use rtltcp.Prelude.{
  ℕ, ◌≡◌, Bool, true, false, not, ◌||◌, List, [], ◌∷◌, Option, none, some, if◌then◌else◌,
}
use rtltcp.Prelude.Loop.{Flow, again, break, loop}
use rtltcp.Io.{
  ErrorKind, would_block, timed_out, unexpected_eof, connection_reset, broken_pipe,
  connection_aborted, not_connected, Outcome, done, failed,
}
use rtltcp.Io.Duplex.{Duplex, recv_exact}
use rtltcp.Control.{command_header_size}
use rtltcp.Control.RateLimiter.{RateLimiter, check}
use rtltcp.Server.{Board}

-- What a round of the loop finds in its environment: the exit flag, the clock, and the nonce that
-- the random generator would give.
pub record Tick : Type 0 where
  pub should_exit : Bool
  pub now : ℕ
  pub nonce : List ℕ

-- The thread's own variables, with the board that it shares. `session` is the state of the
-- encryption, where there is one.
pub record Thread (Handle Session : Type 0) : Type 0 where
  pub stream : Duplex
  pub board : Board Handle
  pub rate_limiter : RateLimiter
  pub session : Session

abbrev pub is_timeout : ErrorKind → Bool
is_timeout would_block = true
is_timeout timed_out = true
is_timeout _ = false

abbrev pub is_disconnect_err : ErrorKind → Bool
is_disconnect_err unexpected_eof = true
is_disconnect_err connection_reset = true
is_disconnect_err broken_pipe = true
is_disconnect_err connection_aborted = true
is_disconnect_err not_connected = true
is_disconnect_err _ = false

-- A change of the board only.
abbrev pub on_board :
    {Handle Session : Type 0}
    → Thread Handle Session
    → (Board Handle → Board Handle)
    → Thread Handle Session
on_board s f = record s { board = f s.board }

module _ {Handle Session : Type 0} (decrypt : Session → List ℕ → List ℕ × Session)
    (command : Tick → List ℕ → Thread Handle Session → Thread Handle Session) where
  -- A frame is dropped when the exit flag is up, which ends the thread, or when it comes too early.
  unfoldable pub on_frame : Tick → List ℕ → Thread Handle Session → Flow (Thread Handle Session)
  on_frame tick buf s =
      let (limiter, passed) = check tick.now s.rate_limiter in
      let s' = record s { rate_limiter = limiter } in
      if tick.should_exit
      then break s
      else if not passed
      then again s'
      else again (command tick buf s')

  -- On a time-out the loop goes on; on a disconnect and on any other error it ends.
  unfoldable pub after_read :
      Tick
      → Thread Handle Session
      → Outcome Duplex ErrorKind (List ℕ)
      → Flow (Thread Handle Session)
  unfolding on_frame
  after_read tick s (done buf d) =
      let (plain, session) = decrypt s.session buf in
      on_frame tick plain (record s { stream = d; session = session })
  after_read tick s (failed e d) =
      let s' = record s { stream = d } in if is_timeout e then again s' else break s'

  unfoldable pub control_round :
      (ℕ → Tick) → ℕ → Thread Handle Session → Flow (Thread Handle Session)
  unfolding after_read
  control_round ticks i s = after_read (ticks i) s (recv_exact command_header_size s.stream)

  -- `none` if the fuel runs out; one round for each byte or failure that arrives, and one for the
  -- end of the stream, are enough.
  unfoldable pub control_loop :
      ℕ → (ℕ → Tick) → Thread Handle Session → Option (Thread Handle Session)
  control_loop fuel ticks s = loop (control_round ticks) fuel 0 s
