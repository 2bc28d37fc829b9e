-- ===== src/ServeMulti/Unsignalled.antt =====
-- `run_serve_multi` of src/main.rs without a signal.
use rtltcp.Prelude.{
  ℕ, ◌≡◌, refl, ◌⊎◌, inl, inr, Bool, true, false, if_keeps, List, Option, none, some, All, ◌∷◌, [],
}
use rtltcp.Prelude.Loop.{Flow, again, break}
use rtltcp.Prelude.Fair.{run_steps}
use rtltcp.Io.{ok, err, Outcome, done, failed}
use rtltcp.Error.{RtlTcpError}
use rtltcp.Control.{magic_packet}
use rtltcp.Control.Whitelist.{Addresses}
use rtltcp.Args.{Args}
use rtltcp.Encryption.{StreamCipher}
use rtltcp.Acceptor as Slaves
use rtltcp.Server.{Controller}
use rtltcp.Server.Masters.{Visit, Masters}
use rtltcp.Server.Masters.Flags.{GoesOn, master_round-GoesOn}
use rtltcp.Serve.{CancelThread, waiting, stopping, finished}
use rtltcp.Serve.Ran.{IfOk, IfOk-ok, IfOk-and_then}
use rtltcp.ServeMulti.Accepting.{on_slave_keeps}
use rtltcp.ServeMulti.{
  Outside, MainThread, accepting, joining_cancel, joining_read, returned, Event, proceed, slave,
  signal, cancelling, end_of_reading, Running, after_round, seen, on_proceed, after_slave,
  on_cancel, step, open_multi, begin, serve_multi,
}

abbrev pub is_signal : Event → Bool
is_signal signal = true
is_signal (proceed v) = false
is_signal (slave r) = false
is_signal cancelling = false
is_signal end_of_reading = false

module _ (device : Controller) (cipher : StreamCipher) (net : Addresses) (args : Args) where
  -- The main thread takes masters, or an error has ended it.
  abbrev pub Serving : MainThread → Type 0
  Serving m = (m ≡ accepting) ⊎ ((e : RtlTcpError) × (m ≡ returned (err e)))

  record Unasked (s : Running device cipher net args) : Type 0 where
    down : s.should_exit ≡ false
    silent : s.pending ≡ false
    waits : s.cancel ≡ waiting
    uncancelled : s.cancelled ≡ false
    serving : Serving s.main_thread

  after_round-Unasked :
      (s : Running device cipher net args)
      (r : Option (Outcome (Masters device.Handle) RtlTcpError Bool))
      → GoesOn r
      → Unasked s
      → Unasked (after_round device cipher net args s r)
  unfolding after_round
  after_round-Unasked s none g u = u
  after_round-Unasked s (some (done true m)) g u = record {
    down = u.down;
    silent = u.silent;
    waits = u.waits;
    uncancelled = u.uncancelled;
    serving = u.serving;
  }
  after_round-Unasked s (some (done false m)) g u = cc
  after_round-Unasked s (some (failed e m)) g u = record {
    down = u.down;
    silent = u.silent;
    waits = u.waits;
    uncancelled = u.uncancelled;
    serving = inr (e, refl);
  }

  module _ (key : Option (List ℕ)) where
    on_proceed-Unasked :
        (m : MainThread) (v : Visit) (s : Running device cipher net args)
        → Serving m
        → Unasked s
        → Unasked (on_proceed device cipher net args key m v s)
    unfolding on_proceed
    on_proceed-Unasked accepting v s h u =
        after_round-Unasked s _
          (master_round-GoesOn device cipher net magic_packet key args.whitelist args.read_timeout
            args.write_timeout (seen device cipher net args key s v) u.down s.masters u.down)
          u
    on_proceed-Unasked joining_cancel v s (inl h) u = cc
    on_proceed-Unasked joining_cancel v s (inr h) u = cc (h.1)
    on_proceed-Unasked joining_read v s (inl h) u = cc
    on_proceed-Unasked joining_read v s (inr h) u = cc (h.1)
    on_proceed-Unasked (returned r) v s h u = u

    looking :
        (s : Running device cipher net args)
        → Unasked s
        → (b : Bool) → Unasked (record s { looked = b })
    looking s u b = record {
      down = u.down;
      silent = u.silent;
      waits = u.waits;
      uncancelled = u.uncancelled;
      serving = u.serving;
    }

    after_slave-Unasked :
        (s : Running device cipher net args) (f : Flow Slaves.Acceptor)
        → Unasked s
        → Unasked (after_slave device cipher net args key s f)
    unfolding after_slave
    after_slave-Unasked s (again a) u = record {
      down = u.down;
      silent = u.silent;
      waits = u.waits;
      uncancelled = u.uncancelled;
      serving = u.serving;
    }
    after_slave-Unasked s (break a) u = record {
      down = u.down;
      silent = u.silent;
      waits = u.waits;
      uncancelled = u.uncancelled;
      serving = u.serving;
    }

    on_cancel-Unasked :
        (c : CancelThread) (s : Running device cipher net args)
        → s.cancel ≡ c
        → Unasked s
        → Unasked (on_cancel device cipher net args key c s)
    unfolding on_cancel
    on_cancel-Unasked waiting s h u =
        if_keeps Unasked s.pending (record s { pending = false; cancel = stopping }) s
          (λ p. cc (p, u.silent)) (λ p. u)
    on_cancel-Unasked stopping s h u = cc (h, u.waits)
    on_cancel-Unasked finished s h u = u

    step-Unasked :
        (e : Event) (s : Running device cipher net args)
        → is_signal e ≡ false
        → Unasked s
        → Unasked (step device cipher net args key e s)
    unfolding step
    step-Unasked (proceed v) s h u = on_proceed-Unasked s.main_thread v s u.serving u
    step-Unasked (slave r) s h u =
        on_slave_keeps device cipher net args key Unasked r s u (λ l e. cc (e, u.down))
          (λ l e. looking s u true)
          (λ l. after_slave-Unasked (record s { looked = false }) _ (looking s u false))
    step-Unasked signal s h u = cc
    step-Unasked cancelling s h u = on_cancel-Unasked s.cancel s refl u
    step-Unasked end_of_reading s h u = record {
      down = u.down;
      silent = u.silent;
      waits = u.waits;
      uncancelled = u.uncancelled;
      serving = u.serving;
    }

    run-Unasked :
        (es : List Event) (s : Running device cipher net args)
        → All (λ e. is_signal e ≡ false) es
        → Unasked s
        → Unasked (run_steps (step device cipher net args key) es s)
    unfolding run_steps
    run-Unasked [] s h u = u
    run-Unasked (e ∷ es) s (h, hs) u = run-Unasked es _ hs (step-Unasked e s h u)

  -- Nothing but a signal leads to the shutdown of the multi-client mode: without one, whatever
  -- happens, the end of the reading of the device included, the exit flag stays down, the reading is
  -- not cancelled, and the main thread goes on to accept masters, unless it has returned an error.
  pub serve_multi_goes_on :
      (o : Outside device.Handle) (slave_port : ℕ) (es : List Event)
      (s : Running device cipher net args)
      → serve_multi device cipher net args o slave_port es ≡ ok s
      → All (λ e. is_signal e ≡ false) es
      → (s.should_exit ≡ false) × (s.cancelled ≡ false) × Serving s.main_thread
  unfolding serve_multi
  serve_multi_goes_on o slave_port es s h quiet =
      let all : IfOk Unasked (serve_multi device cipher net args o slave_port es) =
        IfOk-and_then Unasked (open_multi device cipher net args o slave_port) _ (λ p e.
          IfOk-ok Unasked _ (
            run-Unasked p.1 es (begin device cipher net args p.0) quiet (record {
              down = refl;
              silent = refl;
              waits = refl;
              uncancelled = refl;
              serving = inl refl;
            }))) in
      let u : Unasked s = all.value s h in (u.down, u.uncancelled, u.serving)
