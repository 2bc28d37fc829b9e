-- ===== src/ServeMulti.antt =====
-- `run_serve_multi` of src/main.rs as a whole: the way to its listeners, and then the main thread,
-- the acceptor of slaves, the cancel thread, the thread that reads the device and the signal handler,
-- in any order of their steps. A step is not interrupted; the round of the main thread that serves a
-- master is one step, and that the flag goes up meanwhile shows as what its control thread finds. A
-- round of the acceptor is two steps: its look at the flag, and what it does with what `accept` gives.
-- What the samples do is in Fanout: they are broadcast to a channel that has a receiver of its own,
-- so the sending of them never fails.
pub mod Safety
pub mod Accepting
pub mod Quiet
pub mod Closed
pub mod Protocol
pub mod Progress
pub mod Turns
pub mod Shutdown
pub mod Unsignalled
use Prim.Native.String.{String}
use rtltcp.Prelude.{
  ℕ, Bool, true, false, not, ◌&&◌, List, [], ◌∷◌, ◌++◌, map, Option, none, some, if◌then◌else◌,
}
use rtltcp.Prelude.Loop.{Flow, again, break}
use rtltcp.Prelude.Fair.{run_steps}
use rtltcp.Io.{ErrorKind, Result, ok, err, map_err, Outcome, done, failed}
use rtltcp.Io.Write.{Socket}
use rtltcp.Error.{
  RtlTcpError, config, device as device_error, io, open_device_failed, signal_handler_failed,
}
use rtltcp.Control.{magic_packet}
use rtltcp.Control.Whitelist.{Addresses}
use rtltcp.Args.{Args, parse_encryption_key}
use rtltcp.Encryption.{StreamCipher}
use rtltcp.Server.{Controller}
use rtltcp.Server.Masters.{Visit, Masters, master_round}
use rtltcp.Acceptor as Slaves
use rtltcp.Serve.{
  CancelThread, waiting, stopping, finished, is_finished, bind_master_port, and_then,
}

-- What the environment answers before the threads run.
pub record Outside (Handle : Type 0) : Type 1 where
  pub Listener : Type 0
  pub passed : Option (Result ErrorKind (Option Listener) × Result ErrorKind (Unit {0}))
  pub bind : String → ℕ → Result ErrorKind Listener
  pub open_device : ℕ → Result (Unit {0}) Handle
  pub hex_decode : String → Option (List ℕ)
  pub read_file : String → Result ErrorKind (List ℕ)
  pub set_handler : Result (Unit {0}) (Unit {0})
  pub set_nonblocking : Listener → Result ErrorKind (Unit {0})

-- Where the main thread is: in its accept loop, at one of its two joins, or at its end.
pub data MainThread : Type 0 where
  accepting joining_cancel joining_read : MainThread
  returned : Result RtlTcpError (Unit {0}) → MainThread

-- What happens next: a step of the main thread, or of the acceptor, with what `accept` would give
-- them; a signal; a step of the cancel thread; or the end of `read_async`.
pub data Event : Type 0 where
  proceed : Visit → Event
  slave : Slaves.Round → Event
  signal cancelling end_of_reading : Event

module _ (device : Controller) (cipher : StreamCipher) (net : Addresses) (args : Args) where
  open device use {Handle}

  -- `looked` says that the acceptor is past its look at the flag, `pending` is a message in the
  -- channel to the cancel thread, and `closed` are the streams that the end has shut down. The vector
  -- `all_streams` is kept in two parts, by who put a stream there.
  pub record Running : Type 0 where
    pub masters : Masters Handle
    pub slaves : Slaves.Acceptor
    pub acceptor_ended : Bool
    pub looked : Bool
    pub main_thread : MainThread
    pub should_exit : Bool
    pub pending : Bool
    pub cancel : CancelThread
    pub cancelled : Bool
    pub reading : Bool
    pub closed : List Socket

  abbrev pub accepts : Running → Bool
  accepts s = not s.pending && not (is_finished s.cancel)

  abbrev pub try_send : Running → Running
  try_send s = if accepts s then record s { pending = true } else s

  abbrev pub all_streams : Running → List Socket
  all_streams s = map (λ c. c.1.outgoing) s.masters.all_streams ++ s.slaves.all_streams

  -- The fuel of a control thread does not run out.
  unfoldable pub after_round :
      Running → Option (Outcome (Masters Handle) RtlTcpError Bool) → Running
  after_round s none = s
  after_round s (some (done true m)) = record s { masters = m }
  after_round s (some (done false m)) =
      try_send (record s { masters = m; main_thread = joining_cancel })
  after_round s (some (failed e m)) = record s { masters = m; main_thread = returned (err e) }

  module _ (key : Option (List ℕ)) where
    -- The flag that the accept loop finds, before and after a master, is the one that is there.
    abbrev pub seen : Running → Visit → Visit
    seen s v = record v { should_exit = s.should_exit; exit_after = s.should_exit }

    unfoldable pub on_proceed : MainThread → Visit → Running → Running
    unfolding after_round
    on_proceed accepting v s = after_round s (
        master_round device cipher net magic_packet key args.whitelist args.read_timeout
          args.write_timeout (seen s v) s.masters)
    on_proceed joining_cancel v s =
        if is_finished s.cancel then record s { main_thread = joining_read } else s
    on_proceed joining_read v s =
        if s.reading then s else record s { main_thread = returned (ok tt); closed = all_streams s }
    on_proceed (returned r) v s = s

    unfoldable pub after_slave : Running → Flow Slaves.Acceptor → Running
    after_slave s (again a) = record s { slaves = a }
    after_slave s (break a) = record s { slaves = a; acceptor_ended = true }

    -- The acceptor looks at the flag and goes on with its round later: when the flag goes up, and even
    -- the shutdown of the streams is over, in between, it still takes a client.
    unfoldable pub on_acceptor : Bool → Slaves.Round → Running → Running
    unfolding after_slave
    on_acceptor false r s =
        if s.should_exit then record s { acceptor_ended = true } else record s { looked = true }
    on_acceptor true r s =
        after_slave (record s { looked = false })
          (Slaves.accept_round net magic_packet args.whitelist args.max_slaves
            (record r { should_exit = false }) s.slaves)

    unfoldable pub on_slave : Slaves.Round → Running → Running
    unfolding on_acceptor
    on_slave r s = if s.acceptor_ended then s else on_acceptor s.looked r s

    -- `spawn_cancel_thread`. With a lock that is poisoned the reading is not cancelled.
    unfoldable pub on_cancel : CancelThread → Running → Running
    on_cancel waiting s = if s.pending then record s { pending = false; cancel = stopping } else s
    on_cancel stopping s = record s {
      cancelled = not s.masters.board.ctl.poisoned;
      should_exit = true;
      cancel = finished;
    }
    on_cancel finished s = s

    unfoldable pub step : Event → Running → Running
    unfolding on_proceed on_slave on_cancel
    step (proceed v) s = on_proceed s.main_thread v s
    step (slave r) s = on_slave r s
    step signal s = record (try_send s) { should_exit = true }
    step cancelling s = on_cancel s.cancel s
    step end_of_reading s = record s { reading = false }

  module _ (o : Outside Handle) where
    -- The slave port is there, since `main` asks for it first.
    unfoldable pub open_multi : ℕ → Result RtlTcpError (Handle × Option (List ℕ))
    open_multi slave_port =
        and_then (map_err (λ e. device_error open_device_failed) (o.open_device args.device_index))
          λ ctl. and_then (parse_encryption_key o.hex_decode o.read_file args) λ key.
            and_then (map_err (λ e. config signal_handler_failed) o.set_handler) λ u.
              and_then (bind_master_port o.bind o.passed args) λ master_listener.
                and_then (map_err io (o.bind args.address slave_port)) λ slave_listener.
                  and_then (map_err io (o.set_nonblocking master_listener)) λ u. ok (ctl, key)

  abbrev pub begin : Handle → Running
  begin ctl = record {
    masters = record {
      board = record {
        ctl = record { poisoned = false; value = ctl };
        agc_state = record { enabled = true };
        unknown_command_count = 0;
      };
      encryption_nonces = none;
      all_streams = [];
    };
    slaves = record { count = 0; all_streams = []; clients = [] };
    acceptor_ended = false;
    looked = false;
    main_thread = accepting;
    should_exit = false;
    pending = false;
    cancel = waiting;
    cancelled = false;
    reading = true;
    closed = [];
  }

  -- The state after some events: the function has returned if `main_thread` says so.
  unfoldable pub serve_multi : Outside Handle → ℕ → List Event → Result RtlTcpError Running
  serve_multi o slave_port events =
      and_then (open_multi o slave_port) λ p. ok (run_steps (step p.1) events (begin p.0))
