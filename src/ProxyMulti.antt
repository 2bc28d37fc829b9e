-- ===== src/ProxyMulti.antt =====
-- `run_proxy_multi` of src/main.rs as a whole: the way to its upstream server and its listeners, and
-- then the main thread, the thread that reads from upstream, the acceptor of slaves and the signal
-- handler, in any order of their steps. A step is not interrupted; the round of the main thread that
-- serves a master is one step, and that the flag goes up meanwhile shows as what its control thread
-- finds. What becomes of the samples that are relayed is in Fanout.
pub mod Progress
pub mod Stops
pub mod Unsignalled
use Prim.Native.String.{String}
use rtltcp.Prelude.{
  ℕ, Bool, true, false, not, ◌||◌, List, [], ◌∷◌, Option, none, some, if◌then◌else◌,
}
use rtltcp.Prelude.Loop.{Flow, again, break}
use rtltcp.Prelude.Fair.{run_steps}
use rtltcp.Io.{ErrorKind, Result, ok, err, map_err, Outcome, done, failed}
use rtltcp.Io.Write.{Socket}
use rtltcp.Io.Duplex.{Duplex}
use rtltcp.Error.{RtlTcpError, config, io, upstream_required, signal_handler_failed}
use rtltcp.Control.{Mutex}
use rtltcp.Control.Whitelist.{Addresses}
use rtltcp.Args.{Args}
use rtltcp.Encryption.{StreamCipher}
use rtltcp.Server.Masters.{Visit}
use rtltcp.Acceptor as Slaves
use rtltcp.Serve.{bind_master_port, and_then}
use rtltcp.Proxy.{UpstreamConnection}
use rtltcp.Proxy.Start.{open_upstream}
use rtltcp.Proxy.Forward.{Arrival, Relayed, relay}
use rtltcp.Proxy.Masters.{Proxied, master_round}

-- What the environment answers before the threads run.
pub record Outside : Type 1 where
  pub Listener : Type 0
  pub passed : Option (Result ErrorKind (Option Listener) × Result ErrorKind (Unit {0}))
  pub bind : String → ℕ → Result ErrorKind Listener
  pub set_handler : Result (Unit {0}) (Unit {0})
  pub rsplit_once : String → Option (String × String)
  pub parse_port : String → Option ℕ
  pub hex_decode : String → Option (List ℕ)
  pub read_file : String → Result ErrorKind (List ℕ)
  pub connect : String → ℕ → Result ErrorKind Duplex
  pub my_nonce : List ℕ
  pub clone_for_reader : Result ErrorKind (Unit {0})
  pub set_nonblocking : Listener → Result ErrorKind (Unit {0})

-- Where the main thread is: in its accept loop, at its join, or at its end.
pub data MainThread : Type 0 where
  accepting joining : MainThread
  returned : Result RtlTcpError (Unit {0}) → MainThread

-- What happens next: a step of the main thread, or of the acceptor, with what `accept` would give
-- them; a read from upstream with its answer; or a signal.
pub data Event : Type 0 where
  proceed : Visit → Event
  slave : Slaves.Round → Event
  reading : Result ErrorKind (List ℕ) → Event
  signal : Event

module _ (cipher : StreamCipher) (net : Addresses) (args : Args) where
  open cipher use {State}

  -- `looked` says that the acceptor is past its look at the flag, `pending` is a message in the
  -- channel that `run_proxy_multi` never receives from, and `magic_packet` is the one that the
  -- upstream server sent.
  pub record Running : Type 0 where
    pub magic_packet : List ℕ
    pub write_cipher : Option State
    pub upstream_ctl_stream : Mutex Socket
    pub slaves : Slaves.Acceptor
    pub looked : Bool
    pub acceptor_ended : Bool
    pub main_thread : MainThread
    pub relayed : Relayed
    pub relaying : Bool
    pub should_exit : Bool
    pub pending : Bool

  abbrev pub Served : Running → Type 0
  Served s = Option (
      Outcome
        (Proxied cipher net s.magic_packet args.whitelist args.read_timeout args.write_timeout)
        RtlTcpError Bool)

  -- What the masters share, and back.
  abbrev pub proxied :
      (s : Running)
      → Proxied cipher net s.magic_packet args.whitelist args.read_timeout args.write_timeout
  proxied s = record { write_cipher = s.write_cipher; upstream = s.upstream_ctl_stream }

  abbrev pub with_proxied :
      (s : Running)
      → Proxied cipher net s.magic_packet args.whitelist args.read_timeout args.write_timeout
      → Running
  with_proxied s p = record s { write_cipher = p.write_cipher; upstream_ctl_stream = p.upstream }

  -- The fuel of a forwarding thread does not run out.
  unfoldable pub after_round : (s : Running) → Served s → Running
  after_round s none = s
  after_round s (some (done true p)) = with_proxied s p
  after_round s (some (done false p)) = record (with_proxied s p) {
    main_thread = joining;
    should_exit = true;
    pending = true;
  }
  after_round s (some (failed e p)) = record (with_proxied s p) { main_thread = returned (err e) }

  -- The flag that the accept loop finds, before and after a master, is the one that is there.
  abbrev pub seen : Running → Visit → Visit
  seen s v = record v { should_exit = s.should_exit; exit_after = s.should_exit }

  unfoldable pub on_proceed : MainThread → Visit → Running → Running
  unfolding after_round
  on_proceed accepting v s = after_round s (
      master_round cipher net s.magic_packet args.whitelist args.read_timeout args.write_timeout
        (seen s v) (proxied s))
  on_proceed joining v s = if s.relaying then s else record s { main_thread = returned (ok tt) }
  on_proceed (returned r) v s = s

  unfoldable pub after_slave : Running → Flow Slaves.Acceptor → Running
  after_slave s (again a) = record s { slaves = a }
  after_slave s (break a) = record s { slaves = a; acceptor_ended = true }

  -- The flag may go up between the look at it and the rest of a round.
  unfoldable pub on_acceptor : Bool → Slaves.Round → Running → Running
  unfolding after_slave
  on_acceptor false r s =
      if s.should_exit then record s { acceptor_ended = true } else record s { looked = true }
  on_acceptor true r s =
      after_slave (record s { looked = false })
        (Slaves.accept_round net s.magic_packet args.whitelist args.max_slaves
          (record r { should_exit = false }) s.slaves)

  unfoldable pub on_slave : Slaves.Round → Running → Running
  unfolding on_acceptor
  on_slave r s = if s.acceptor_ended then s else on_acceptor s.looked r s

  -- The thread sends into the channel when a read fails.
  unfoldable pub after_reading : Running → Flow Relayed → Running
  after_reading s (again r) = record s { relayed = r }
  after_reading s (break r) = record s {
    relayed = r;
    relaying = false;
    pending = s.pending || r.signalled;
  }

  unfoldable pub on_reading : Result ErrorKind (List ℕ) → Running → Running
  unfolding after_reading
  on_reading answer s =
      if s.relaying
      then after_reading s
          (relay (record { should_exit = s.should_exit; read = answer } ∷ []) s.relayed)
      else s

  unfoldable pub step : Event → Running → Running
  unfolding on_proceed on_slave on_reading
  step (proceed v) s = on_proceed s.main_thread v s
  step (slave r) s = on_slave r s
  step (reading answer) s = on_reading answer s
  step signal s = record s { pending = true; should_exit = true }

  -- There is an acceptor if there is a slave port.
  abbrev pub begin : UpstreamConnection cipher → Running
  begin u = record {
    magic_packet = u.magic_packet;
    write_cipher = u.write_cipher;
    upstream_ctl_stream = record { poisoned = false; value = u.stream.outgoing };
    slaves = record { count = 0; all_streams = []; clients = [] };
    looked = false;
    acceptor_ended = elim args.slave_port [ none ↦ true | some p ↦ false ];
    main_thread = accepting;
    relayed = record { given = []; signalled = false };
    relaying = true;
    should_exit = false;
    pending = false;
  }

  module _ (o : Outside) where
    required : Option String → Result RtlTcpError String
    required none = err (config upstream_required)
    required (some upstream) = ok upstream

    bind_slave_port : Option ℕ → Result ErrorKind (Option o.Listener)
    bind_slave_port none = ok none
    bind_slave_port (some port) = elim (o.bind args.address port) [
      | ok l ↦ ok (some l)
      | err e ↦ err e
    ]

    -- When it comes to `open_upstream`, the address is known to be given.
    unfoldable pub open_proxy : Result RtlTcpError (UpstreamConnection cipher)
    unfolding required bind_slave_port
    open_proxy = and_then (required args.upstream) λ upstream.
        and_then (map_err (λ e. config signal_handler_failed) o.set_handler) λ u.
          and_then (bind_master_port o.bind o.passed args) λ master_listener.
            and_then (map_err io (bind_slave_port args.slave_port)) λ slave_listener.
              and_then
                (open_upstream o.rsplit_once o.parse_port o.hex_decode o.read_file cipher o.connect
                  o.my_nonce args)
                λ connection.
                  and_then (map_err io o.clone_for_reader) λ u.
                    and_then (map_err io (o.set_nonblocking master_listener)) λ u. ok connection

    -- The state after some events: the function has returned if `main_thread` says so.
    unfoldable pub proxy_multi : List Event → Result RtlTcpError Running
    proxy_multi events = and_then open_proxy λ u. ok (run_steps step events (begin u))
