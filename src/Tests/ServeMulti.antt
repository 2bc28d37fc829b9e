-- ===== src/Tests/ServeMulti.antt =====
-- Runs of the multi-client mode as a whole.
use rtltcp.Prelude.{
  ℕ, ◌≤◌, ◌≡◌, refl, true, false, List, [], ◌∷◌, ◌++◌, concat, length, none, All, arith,
}
use rtltcp.Prelude.Fair.{run_steps}
use rtltcp.Io.{Result, ok, err, not_connected}
use rtltcp.Io.Write.{Socket, socket_write_all}
use rtltcp.Error.{RtlTcpError}
use rtltcp.Control.Whitelist.{check_whitelist}
use rtltcp.Args.{parse_encryption_key}
use rtltcp.Acceptor as Slaves
use rtltcp.Serve.{bind_master_port, finished}
use rtltcp.ServeMulti.{
  Outside, Event, proceed, slave, signal, cancelling, end_of_reading, returned, Running,
  all_streams, after_round, on_proceed, after_slave, on_acceptor, on_slave, on_cancel, step,
  open_multi, begin, serve_multi,
}
use rtltcp.ServeMulti.Safety.{serve_multi_safe}
use rtltcp.ServeMulti.Protocol.{Moves, phase, serving, serve_multi-Moves}
use rtltcp.ServeMulti.Closed.{serve_multi_closes}
use rtltcp.ServeMulti.Shutdown.{serve_multi_stops}
use rtltcp.ServeMulti.Unsignalled.{Serving, serve_multi_goes_on}
use rtltcp.Server.Masters.{master_round}
use rtltcp.Tests.Fixtures.{Call, InRange, logger, striped}
use rtltcp.Tests.Serve.{local, toy_net}
use rtltcp.Tests.Masters.{visit}

abbrev outside : Outside (List Call)
outside = record {
  Listener = Unit {0};
  passed = none;
  bind = λ address port. ok tt;
  open_device = λ index. ok [];
  hex_decode = λ t. none;
  read_file = λ path. err not_connected;
  set_handler = ok tt;
  set_nonblocking = λ listener. ok tt;
}

abbrev quiet_socket : Socket
quiet_socket = record { sent = []; faults = [] }

-- A slave and a master come, and the device is pulled out.
abbrev before : List Event
before =
    slave (record { should_exit = false; accept = Slaves.connection quiet_socket "10" })
    ∷ slave (record { should_exit = false; accept = Slaves.connection quiet_socket "10" })
    ∷ proceed visit
    ∷ end_of_reading
    ∷ []

abbrev turns : List Event
turns = cancelling ∷ proceed visit ∷ []

abbrev rounds : List (List Event)
rounds = turns ∷ turns ∷ turns ∷ turns ∷ []

abbrev events : List Event
events = before ++ (signal ∷ (concat rounds ++ (end_of_reading ∷ proceed visit ∷ [])))

abbrev after : List Event → Running logger striped toy_net local
after es =
    run_steps (step logger striped toy_net local none) es (begin logger striped toy_net local [])

multi_run :
    (es : List Event) → serve_multi logger striped toy_net local outside 1235 es ≡ ok (after es)
unfolding serve_multi open_multi parse_encryption_key bind_master_port
multi_run es = refl

serve_multi_stops_example :
    (r : Result RtlTcpError (Unit {0})) × ((after events).main_thread ≡ returned r)
serve_multi_stops_example =
    serve_multi_stops logger striped toy_net local outside 1235 before rounds (proceed visit ∷ [])
      (after events) (multi_run events) ((tt, tt), ((tt, tt), ((tt, tt), ((tt, tt), tt))))
      (omega arith) tt

newly_opened : (index : ℕ) (ctl : List Call) → outside.open_device index ≡ ok ctl → All InRange ctl
newly_opened index [] e = tt
newly_opened index (c ∷ ctl) e = cc

serve_multi_safe_example :
    All InRange (after events).masters.board.ctl.value
    × All (λ c. check_whitelist toy_net c.0 [] ≡ ok tt) (after events).masters.all_streams
    × All (λ c. check_whitelist toy_net c.0 [] ≡ ok tt) (after events).slaves.clients
    × (length (after events).slaves.clients ≤ 10)
serve_multi_safe_example =
    serve_multi_safe logger (All InRange) (λ f d h p. (h, p)) (λ r d h p. (h, p))
      (λ g d h p. (h, p)) (λ p d h q. (h, q)) (λ d p. (tt, p)) (λ d p. (tt, p)) striped toy_net
      local outside newly_opened 1235 events (after events) (multi_run events)

serve_multi_goes_on_example :
    ((after before).should_exit ≡ false)
    × ((after before).cancelled ≡ false)
    × Serving logger striped toy_net local (after before).main_thread
serve_multi_goes_on_example =
    serve_multi_goes_on logger striped toy_net local outside 1235 before (after before)
      (multi_run before) (refl, (refl, (refl, (refl, tt))))

abbrev calling : Event
calling = slave (record { should_exit = false; accept = Slaves.connection quiet_socket "10" })

-- Without a master. A slave comes, and another one after the shutdown of the streams.
abbrev short : List Event
short =
    calling
    ∷ calling
    ∷ calling
    ∷ signal
    ∷ (concat rounds ++ (end_of_reading ∷ proceed visit ∷ calling ∷ []))

has_returned : (after short).main_thread ≡ returned (ok tt)
unfolding run_steps step on_proceed master_round after_round on_slave on_acceptor after_slave
    Slaves.accept_round check_whitelist socket_write_all on_cancel
has_returned = refl

serve_multi_closes_example :
    ((after short).should_exit ≡ true)
    × ((after short).cancel ≡ finished)
    × ((after short).reading ≡ false)
    × ((late : List Socket) × (all_streams logger striped toy_net local (after short)
          ≡ (after short).closed ++ late)
        × (length late ≤ 1))
serve_multi_closes_example =
    serve_multi_closes logger striped toy_net local outside 1235 short (after short)
      (multi_run short) has_returned

serve_multi-Moves_example :
    Moves (serving logger striped toy_net local) (phase logger striped toy_net local (after events))
serve_multi-Moves_example =
    serve_multi-Moves logger striped toy_net local outside 1235 events (after events)
      (multi_run events)
