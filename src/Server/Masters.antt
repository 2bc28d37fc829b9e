-- ===== src/Server/Masters.antt =====
-- The accept loop of `run_serve_multi` of src/main.rs: the masters that come one after another, each
-- with the control thread of `spawn_master_control_thread`. What `accept` would give, and what the
-- control thread finds, are arguments of each round; the listener's address is not modelled.
pub mod Safety
pub mod Writer
pub mod Flags
use Prim.Native.String.{String}
use rtltcp.Prelude.{
  ℕ, suc, Bool, true, false, not, List, [], ◌∷◌, ◌++◌, Option, none, some, length, if◌then◌else◌,
}
use rtltcp.Io.{
  ErrorKind, would_block, Result, ok, err, Outcome, done, failed, Action, ◌>>◌, convert,
}
use rtltcp.Io.Duplex.{Duplex, send_all, set_read_timeout}
use rtltcp.Error.{RtlTcpError, network, io, accept_failed}
use rtltcp.Control.{command_rate_limit_interval}
use rtltcp.Control.RateLimiter
use rtltcp.Control.Whitelist.{Addresses, check_whitelist}
use rtltcp.Encryption.{StreamCipher}
use rtltcp.Server.{Controller, Board}
use rtltcp.Server.Thread.{Tick, Thread}
use rtltcp.Server.Thread.Master.{Session, master_loop}

pub data Accept : Type 0 where
  connection : Duplex → String → Accept
  refused : ErrorKind → Accept

-- A round: the exit flag at its start, the answer of `accept`, the clock when the control thread
-- makes its rate limiter (read once, perhaps twice), what the thread finds, and the flag after it.
pub record Visit : Type 0 where
  pub should_exit : Bool
  pub accept : Accept
  pub started : ℕ
  pub started_later : ℕ
  pub ticks : ℕ → Tick
  pub exit_after : Bool

-- What the rounds share. `all_streams` has the address beside each stream.
pub record Masters (Handle : Type 0) : Type 0 where
  pub board : Board Handle
  pub encryption_nonces : Option (List ℕ × List ℕ)
  pub all_streams : List (String × Duplex)

abbrev pub is_would_block : ErrorKind → Bool
is_would_block would_block = true
is_would_block _ = false

-- `set_write_timeout` refuses zero as `set_read_timeout` does.
unfoldable pub set_timeouts : ℕ → ℕ → Action Duplex RtlTcpError (Unit {0})
set_timeouts read_timeout write_timeout =
    convert io (set_read_timeout read_timeout) >> convert io (set_read_timeout write_timeout)

module _ (device : Controller) (cipher : StreamCipher) (net : Addresses) (magic : List ℕ)
    (encryption_key : Option (List ℕ)) (whitelist : List String)
    (read_timeout write_timeout : ℕ) where
  open device use {Handle}
  open cipher use {State}

  -- `true` for another round, `false` for the shutdown; no outcome if the fuel of a control thread
  -- ran out.
  abbrev pub Served : Type 0
  Served = Option (Outcome (Masters Handle) RtlTcpError Bool)

  -- The control thread's own variables are new, but the nonces are those of the last master.
  unfoldable pub control_thread : Visit → Duplex → Masters Handle → Thread Handle (Session State)
  control_thread v d s = record {
    stream = d;
    board = record s.board { unknown_command_count = 0 };
    rate_limiter = RateLimiter.new command_rate_limit_interval v.started v.started_later;
    session = record {
      read_cipher = none;
      write_cipher = none;
      encryption_nonces = s.encryption_nonces;
    };
  }

  unfoldable pub after_join :
      Visit → Masters Handle → Option (Thread Handle (Session State)) → Served
  after_join v s none = none
  after_join v s (some t) = some (
      done (not v.exit_after)
        (record s { board = t.board; encryption_nonces = t.session.encryption_nonces }))

  -- One round of the thread for each arrival and one more.
  unfoldable pub after_magic :
      Visit → Masters Handle → Outcome Duplex RtlTcpError (Unit {0}) → Served
  unfolding after_join control_thread
  after_magic v s (failed e d) = some (failed e s)
  after_magic v s (done u d) = after_join v s (
      master_loop device cipher encryption_key (suc (length d.incoming)) v.ticks
        (control_thread v d s))

  unfoldable pub after_timeouts :
      Visit → String → Masters Handle → Outcome Duplex RtlTcpError (Unit {0}) → Served
  unfolding after_magic
  after_timeouts v ip s (failed e d) = some (failed e s)
  after_timeouts v ip s (done u d) =
      after_magic v (record s { all_streams = s.all_streams ++ ((ip, d) ∷ []) })
        (convert io (send_all magic) d)

  -- A client that the whitelist refuses ends the program, as an error of `accept` does.
  unfoldable pub on_checked :
      Visit → Duplex → String → Masters Handle → Result RtlTcpError (Unit {0}) → Served
  unfolding after_timeouts
  on_checked v d ip s (err e) = some (failed e s)
  on_checked v d ip s (ok u) = after_timeouts v ip s (set_timeouts read_timeout write_timeout d)

  unfoldable pub on_accept : Visit → Masters Handle → Accept → Served
  unfolding on_checked
  on_accept v s (refused e) =
      if is_would_block e then some (done true s) else some (failed (network (accept_failed e)) s)
  on_accept v s (connection d ip) = on_checked v d ip s (check_whitelist net ip whitelist)

  unfoldable pub master_round : Visit → Masters Handle → Served
  unfolding on_accept
  master_round v s = if v.should_exit then some (done false s) else on_accept v s v.accept

  unfoldable pub masters_loop : List Visit → Masters Handle → Served
  masters_loop [] s = some (done true s)
  masters_loop (v ∷ vs) s = elim (master_round v s) [
    | none ↦ none
    | some o ↦ elim o [
      | done b s' ↦ let rest = masters_loop vs s' in if b then rest else some (done false s')
      | failed e s' ↦ some (failed e s')
    ]
  ]
