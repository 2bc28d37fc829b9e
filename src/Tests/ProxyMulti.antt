-- ===== src/Tests/ProxyMulti.antt =====
-- Runs of the proxy mode as a whole.
use rtltcp.Prelude.{◌≡◌, refl, false, List, [], ◌∷◌, ◌++◌, concat, none, arith}
use rtltcp.Prelude.Fair.{run_steps}
use rtltcp.Io.{Result, ok, timed_out, broken_pipe, err}
use rtltcp.Error.{RtlTcpError}
use rtltcp.Acceptor as Slaves
use rtltcp.Serve.{bind_master_port}
use rtltcp.Proxy.Forward.{relay}
use rtltcp.ProxyMulti.{
  Outside, Event, proceed, slave, reading, signal, returned, Running, after_slave, on_acceptor,
  on_slave, after_reading, on_reading, step, begin, open_proxy, proxy_multi,
}
use rtltcp.ProxyMulti.Stops.{proxy_multi_stops}
use rtltcp.ProxyMulti.Unsignalled.{Serving, proxy_multi_goes_on}
use rtltcp.Tests.Fixtures.{striped}
use rtltcp.Tests.Serve.{toy_net}
use rtltcp.Tests.Masters.{visit}
use rtltcp.Tests.Upstream.{
  options, rsplit_once, parse_port, no_hex, no_files, nonce, far, plain_upstream, open_upstream-far,
}

abbrev outside : Outside
outside = record {
  Listener = Unit {0};
  passed = none;
  bind = λ address port. ok tt;
  set_handler = ok tt;
  rsplit_once = rsplit_once;
  parse_port = parse_port;
  hex_decode = no_hex;
  read_file = no_files;
  connect = far;
  my_nonce = nonce;
  clone_for_reader = ok tt;
  set_nonblocking = λ listener. ok tt;
}

abbrev after : List Event → Running striped toy_net options
after es =
    run_steps (step striped toy_net options) es (begin striped toy_net options plain_upstream)

proxy_run : (es : List Event) → proxy_multi striped toy_net options outside es ≡ ok (after es)
unfolding proxy_multi open_proxy bind_master_port
proxy_run es = rw open_upstream-far refl

abbrev calling : Slaves.Round
calling = record {
  should_exit = false;
  accept = Slaves.connection (record { sent = []; faults = [] }) "10";
}

-- A slave comes, after a look at the flag; samples arrive, a read times out, and the upstream server closes.
abbrev closing : List Event
closing =
    slave calling
    ∷ slave calling
    ∷ reading (ok (127 ∷ 128 ∷ []))
    ∷ reading (err timed_out)
    ∷ reading (ok [])
    ∷ []

-- Then a master comes.
abbrev later : List Event
later = proceed visit ∷ reading (ok (1 ∷ [])) ∷ []

relaying_ended : (after closing).relaying ≡ false
unfolding run_steps step on_slave on_acceptor after_slave Slaves.accept_round on_reading
    after_reading relay
relaying_ended = refl

proxy_multi_goes_on_example :
    ((after (closing ++ later)).relaying ≡ false)
    × ((after (closing ++ later)).relayed ≡ (after closing).relayed)
    × ((after (closing ++ later)).should_exit ≡ false)
    × Serving striped toy_net options (after (closing ++ later)).main_thread
proxy_multi_goes_on_example =
    proxy_multi_goes_on striped toy_net options outside closing later (after closing)
      (after (closing ++ later)) (proxy_run closing) (proxy_run (closing ++ later))
      (refl, (refl, (refl, (refl, (refl, tt))))) (refl, (refl, tt)) relaying_ended

abbrev turns : List Event
turns = reading (err broken_pipe) ∷ proceed visit ∷ []

abbrev rounds : List (List Event)
rounds = turns ∷ turns ∷ turns ∷ []

abbrev before : List Event
before = reading (ok (127 ∷ 128 ∷ [])) ∷ proceed visit ∷ []

proxy_multi_stops_example :
    ((r : Result RtlTcpError (Unit {0})) × ((after (before ++ (signal ∷ concat rounds))).main_thread
        ≡ returned r))
    × ((after (before ++ (signal ∷ concat rounds))).relaying ≡ false)
proxy_multi_stops_example =
    proxy_multi_stops striped toy_net options outside before rounds
      (after (before ++ (signal ∷ concat rounds))) (proxy_run (before ++ (signal ∷ concat rounds)))
      ((tt, tt), ((tt, tt), ((tt, tt), tt))) (omega arith)
