-- ===== src/Serve.antt =====
-- `run_serve_single` of src/main.rs as a whole: the way to its client, and then its three threads, in
-- any order of their steps. A step is not interrupted: what it writes reaches the socket together.
-- The operating system, the device library and the registration of the signal handler are arguments.
pub mod Ran
pub mod Cancel
pub mod Shutdown
pub mod Replies
pub mod Whole
pub mod Samples
pub mod Safety
use Prim.Native.String.{String}
use rtltcp.Prelude.{
  ℕ, ◌+◌, ◌%◌, Bool, true, false, not, ◌&&◌, List, [], ◌∷◌, Option, none, some, length,
  if◌then◌else◌,
}
use rtltcp.Prelude.Loop.{Flow, again, break, state}
use rtltcp.Io.{ErrorKind, broken_pipe, Result, ok, err, map_err, Outcome, done, failed, ◌>>◌}
use rtltcp.Io.Write.{Socket}
use rtltcp.Io.Duplex.{Duplex}
use rtltcp.Io.BufWriter.{BufWriter, buffered_write_all, flush}
use rtltcp.Bytes.{u64_mod}
use rtltcp.Error.{
  RtlTcpError, config, device as device_error, io, listen_fd_failed, open_device_failed,
  signal_handler_failed,
}
use rtltcp.Control.{command_rate_limit_interval, Mutex}
use rtltcp.Control.RateLimiter
use rtltcp.Control.Whitelist.{Addresses, check_whitelist}
use rtltcp.Args.{Args}
use rtltcp.Server.{Controller}
use rtltcp.Server.Thread.{Tick, Thread, control_round}
use rtltcp.Server.Thread.Single.{plain, single_command}
use rtltcp.Server.Masters.{set_timeouts}

abbrev pub and_then {ℓ κ} :
    {A : Type ℓ} {B : Type κ}
    → Result RtlTcpError A
    → (A → Result RtlTcpError B)
    → Result RtlTcpError B
and_then (ok a) f = f a
and_then (err e) f = err e

-- An action whose state is kept, or dropped with the error.
abbrev settled {ℓ κ} : {S : Type ℓ} {A : Type κ} → Outcome S RtlTcpError A → Result RtlTcpError S
settled (done a s) = ok s
settled (failed e s) = err e

module _ {Listener : Type 0} (bind : String → ℕ → Result ErrorKind Listener) where
  -- What systemd hands over, and how the notification of it went.
  taken :
      Args
      → Result ErrorKind (Option Listener)
      → Result ErrorKind (Unit {0})
      → Result RtlTcpError Listener
  taken args (err e) notified = err (config (listen_fd_failed e))
  taken args (ok none) notified = map_err io (bind args.address args.master_port)
  taken args (ok (some l)) (ok u) = ok l
  taken args (ok (some l)) (err e) = err (io e)

  -- `none` without the feature systemd.
  unfoldable pub bind_master_port :
      Option (Result ErrorKind (Option Listener) × Result ErrorKind (Unit {0}))
      → Args
      → Result RtlTcpError Listener
  unfolding taken
  bind_master_port none args = map_err io (bind args.address args.master_port)
  bind_master_port (some (passed, notified)) args = taken args passed notified

-- What the environment answers before the threads run. A client is its stream and its address.
pub record Outside (Handle : Type 0) : Type 1 where
  pub Listener : Type 0
  pub passed : Option (Result ErrorKind (Option Listener) × Result ErrorKind (Unit {0}))
  pub bind : String → ℕ → Result ErrorKind Listener
  pub accept : Listener → Result ErrorKind (Duplex × String)
  pub clone_for_shutdown : Result ErrorKind (Unit {0})
  pub open_device : ℕ → Result (Unit {0}) Handle
  pub set_handler : Result (Unit {0}) (Unit {0})
  pub clone_for_control : Result ErrorKind (Unit {0})

pub data CancelThread : Type 0 where
  waiting stopping finished : CancelThread

abbrev pub is_finished : CancelThread → Bool
is_finished waiting = false
is_finished stopping = false
is_finished finished = true

-- What happens next: a round of the control thread at a time, samples of the device, the end of
-- `read_async`, a signal, or a step of the cancel thread. A signal also shuts the stream down: all
-- later writes fail, and that the reads come to an end shows as what arrives.
pub data Event : Type 0 where
  round : ℕ → Event
  samples : List ℕ → Event
  end_of_reading signal cancelling : Event

module _ (device : Controller) where
  open device use {Handle}

  -- The stream of `control` is the client's: the main thread writes to it through `buffered`, the
  -- buffer of its `BufWriter`. `pending` is a message in the channel to the cancel thread.
  pub record Running : Type 0 where
    pub control : Thread Handle (Unit {0})
    pub control_ended : Bool
    pub should_exit : Bool
    pub pending : Bool
    pub cancel : CancelThread
    pub cancelled : Bool
    pub reading : Bool
    pub shut_down : Bool
    pub capacity : ℕ
    pub buffered : List ℕ
    pub total_bytes_sent : ℕ

  -- The client's end for the next writes: the first one that fails ends a step's writing.
  abbrev pub wire : Running → Socket
  wire s =
      if s.shut_down
      then record { sent = s.control.stream.outgoing.sent; faults = some (0, broken_pipe) ∷ [] }
      else s.control.stream.outgoing

  abbrev pub control_of : Running → Thread Handle (Unit {0})
  control_of s = record s.control {
    stream = record { incoming = s.control.stream.incoming; outgoing = wire s };
  }

  abbrev pub writer : Running → BufWriter
  writer s = record { capacity = s.capacity; buf = s.buffered; inner = wire s }

  abbrev pub with_writer : BufWriter → Running → Running
  with_writer w s = record s {
    control = record s.control {
      stream = record { incoming = s.control.stream.incoming; outgoing = w.inner };
    };
    buffered = w.buf;
  }

  -- The channel holds one message, while the cancel thread has not ended.
  abbrev pub accepts : Running → Bool
  accepts s = not s.pending && not (is_finished s.cancel)

  abbrev pub try_send : Running → Running
  try_send s = if accepts s then record s { pending = true } else s

  -- A failed write or flush only asks for the end.
  unfoldable pub after_samples : Running → Outcome BufWriter ErrorKind (Unit {0}) → Running
  after_samples s (done u w) = with_writer w s
  after_samples s (failed e w) = try_send (with_writer w s)

  unfoldable pub on_samples : List ℕ → Running → Running
  unfolding after_samples
  on_samples bytes s =
      let counted = record s { total_bytes_sent = (s.total_bytes_sent + length bytes) % u64_mod } in
      after_samples counted ((buffered_write_all bytes >> flush) (writer s))

  unfoldable pub after_round : Running → Flow (Thread Handle (Unit {0})) → Running
  after_round s (again t) = record s { control = t }
  after_round s (break t) = record s { control = t; control_ended = true }

  abbrev pub found : Running → ℕ → ℕ → Tick
  found s now i = record { should_exit = s.should_exit; now = now; nonce = [] }

  -- With a lock that is poisoned the reading is not cancelled.
  unfoldable pub on_cancel : CancelThread → Running → Running
  on_cancel waiting s = if s.pending then record s { pending = false; cancel = stopping } else s
  on_cancel stopping s = record s {
    cancelled = not s.control.board.ctl.poisoned;
    should_exit = true;
    cancel = finished;
  }
  on_cancel finished s = s

  unfoldable pub step : Event → Running → Running
  unfolding on_samples after_round on_cancel
  step (round now) s =
      if s.control_ended
      then s
      else after_round s
          (control_round plain (single_command device) (found s now) 0 (control_of s))
  step (samples bytes) s = if s.reading then on_samples bytes s else s
  step end_of_reading s = if s.reading then try_send (record s { reading = false }) else s
  step signal s =
      if accepts s
      then record (try_send s) { shut_down = true }
      else record s { should_exit = true; shut_down = true }
  step cancelling s = on_cancel s.cancel s

  unfoldable pub run : List Event → Running → Running
  unfolding step
  run [] s = s
  run (e ∷ es) s = run es (step e s)

  module _ (net : Addresses) (magic : List ℕ) (o : Outside Handle) where
    unfoldable pub open_client : Args → Result RtlTcpError Duplex
    open_client args = and_then (bind_master_port o.bind o.passed args) λ listener.
        and_then (map_err io (o.accept listener)) λ client.
          and_then (check_whitelist net client.1 args.whitelist) λ u.
            and_then (settled (set_timeouts args.read_timeout args.write_timeout client.0))
              λ stream. and_then (map_err io o.clone_for_shutdown) λ u. ok stream

    unfoldable pub watched : Duplex → Handle → Result RtlTcpError (Duplex × Handle)
    watched stream ctl =
        and_then (map_err (λ e. config signal_handler_failed) o.set_handler)
          λ u. and_then (map_err io o.clone_for_control) λ u. ok (stream, ctl)

    unfoldable pub with_device : Args → Duplex → Result RtlTcpError (Duplex × Handle)
    unfolding watched
    with_device args stream =
        and_then (map_err (λ e. device_error open_device_failed) (o.open_device args.device_index))
          (watched stream)

    unfoldable pub open_single : Args → Result RtlTcpError (Duplex × Handle)
    unfolding open_client with_device
    open_single args = and_then (open_client args) (with_device args)

    -- The control thread reads the clock once or twice for its rate limiter.
    abbrev pub begin : Args → ℕ → ℕ → Duplex → Handle → Running
    begin args started started_later stream ctl = record {
      control = record {
        stream = stream;
        board = record {
          ctl = record { poisoned = false; value = ctl };
          agc_state = record { enabled = true };
          unknown_command_count = 0;
        };
        rate_limiter = RateLimiter.new command_rate_limit_interval started started_later;
        session = tt;
      };
      control_ended = false;
      should_exit = false;
      pending = false;
      cancel = waiting;
      cancelled = false;
      reading = false;
      shut_down = false;
      capacity = args.tcp_buffers;
      buffered = [];
      total_bytes_sent = 0;
    }

    unfoldable pub after_greeting :
        List Event → Running → Outcome BufWriter ErrorKind (Unit {0}) → Result RtlTcpError Running
    after_greeting late s (failed e w) = err (io e)
    after_greeting late s (done u w) = ok (run late (record (with_writer w s) { reading = true }))

    -- The state once `late` is over; the function itself then waits for the threads, if the reading
    -- has ended, and returns `Ok(())`.
    unfoldable pub serve_single :
        Args → ℕ → ℕ → List Event → List Event → Result RtlTcpError Running
    unfolding after_greeting
    serve_single args started started_later early late = and_then (open_single args) λ client.
        let s = run early (begin args started started_later client.0 client.1) in
        after_greeting late s ((buffered_write_all magic >> flush) (writer s))
