-- ===== src/ServeMulti/Safety.antt =====
-- What holds throughout `run_serve_multi` of src/main.rs, whoever connects and whatever fails.
use Prim.Native.String.{String}
use rtltcp.Prelude.{
  ℕ, ◌≤◌, ◌≡◌, refl, Bool, true, false, if_keeps, List, Option, some, length, All, arith,
}
use rtltcp.Prelude.Int.{ℤ}
use rtltcp.Prelude.Loop.{Flow, again, break, state}
use rtltcp.Prelude.Fair.{run_steps_keeps}
use rtltcp.Io.{ok, map_err, Outcome, done, failed}
use rtltcp.Error.{
  config, io, signal_handler_failed, RtlTcpError, device as device_error, open_device_failed,
}
use rtltcp.Control.{magic_packet}
use rtltcp.Control.Ranges.{IsFrequency, IsSampleRate, IsTunerGain, IsPpm}
use rtltcp.Control.Whitelist.{Addresses, check_whitelist}
use rtltcp.Args.{Args, parse_encryption_key}
use rtltcp.Encryption.{StreamCipher}
use rtltcp.Acceptor as Slaves
use rtltcp.Acceptor.Slots.{Inv, accept_round-Inv}
use rtltcp.Server.{Controller, called}
use rtltcp.Server.Masters.{Visit, Masters}
use rtltcp.Server.Masters.Safety.{left, master_round-Good}
use rtltcp.Serve.{CancelThread, waiting, stopping, finished, is_finished, bind_master_port}
use rtltcp.Serve.Ran.{IfOk, IfOk-ok, IfOk-and_then, map_err-ok}
use rtltcp.ServeMulti.Accepting.{on_slave_keeps}
use rtltcp.ServeMulti.{
  Outside, MainThread, accepting, joining_cancel, joining_read, returned, Event, proceed, slave,
  signal, cancelling, end_of_reading, Running, accepts, try_send, after_round, seen, on_proceed,
  after_slave, on_cancel, step, open_multi, begin, serve_multi,
}

module _ (device : Controller) (P : device.Handle → Type 0)
    (frequency : (f : ℕ) (d : device.Handle)
      → IsFrequency f
      → P d
      → P (called (device.set_center_freq f d)))
    (sample_rate : (r : ℕ) (d : device.Handle)
      → IsSampleRate r
      → P d
      → P (called (device.set_sample_rate r d)))
    (tuner_gain : (g : ℤ) (d : device.Handle)
      → IsTunerGain g
      → P d
      → P (called (device.set_tuner_gain g d)))
    (ppm : (p : ℤ) (d : device.Handle) → IsPpm p → P d → P (called (device.set_ppm p d)))
    (agc_on : (d : device.Handle) → P d → P (called (device.enable_agc d)))
    (agc_off : (d : device.Handle) → P d → P (called (device.disable_agc d)))
    (cipher : StreamCipher) (net : Addresses) (args : Args) where
  abbrev Passes : String → Type 0
  Passes ip = check_whitelist net ip args.whitelist ≡ ok tt

  record Guarded (s : Running device cipher net args) : Type 0 where
    tuned : P s.masters.board.ctl.value
    known_masters : All (λ c. Passes c.0) s.masters.all_streams
    known_slaves : Inv net magic_packet args.whitelist args.max_slaves s.slaves

  -- A state with the same masters and slaves.
  same_clients :
      (s t : Running device cipher net args)
      → t.masters ≡ s.masters
      → t.slaves ≡ s.slaves
      → Guarded s
      → Guarded t
  same_clients s t m a g = record {
    tuned = rw m g.tuned;
    known_masters = rw m g.known_masters;
    known_slaves = rw a g.known_slaves;
  }

  try_send-Guarded :
      (s : Running device cipher net args) → Guarded s → Guarded (try_send device cipher net args s)
  try_send-Guarded s g =
      if_keeps Guarded (accepts device cipher net args s) (record s { pending = true }) s
        (λ e. same_clients s _ refl refl g) (λ e. g)

  after_round-Guarded :
      (s : Running device cipher net args) (r : Outcome (Masters device.Handle) RtlTcpError Bool)
      → P (left r).board.ctl.value
      → All (λ c. Passes c.0) (left r).all_streams
      → Guarded s
      → Guarded (after_round device cipher net args s (some r))
  unfolding after_round
  after_round-Guarded s (done true m) p w g = record {
    tuned = p;
    known_masters = w;
    known_slaves = g.known_slaves;
  }
  after_round-Guarded s (done false m) p w g =
      try_send-Guarded (record s { masters = m; main_thread = joining_cancel })
        (record { tuned = p; known_masters = w; known_slaves = g.known_slaves })
  after_round-Guarded s (failed e m) p w g = record {
    tuned = p;
    known_masters = w;
    known_slaves = g.known_slaves;
  }

  module _ (key : Option (List ℕ)) where
    on_proceed-Guarded :
        (m : MainThread) (v : Visit) (s : Running device cipher net args)
        → Guarded s
        → Guarded (on_proceed device cipher net args key m v s)
    unfolding on_proceed
    on_proceed-Guarded accepting v s g =
        let (r, run, good) =
          master_round-Good device P frequency sample_rate tuner_gain ppm agc_on agc_off cipher net
            magic_packet key args.whitelist args.read_timeout args.write_timeout
            (seen device cipher net args key s v) s.masters (g.tuned, g.known_masters) in
        rw run (after_round-Guarded s r good.0 good.1 g)
    on_proceed-Guarded joining_cancel v s g =
        if_keeps Guarded (is_finished s.cancel) (record s { main_thread = joining_read }) s
          (λ e. same_clients s _ refl refl g) (λ e. g)
    on_proceed-Guarded joining_read v s g =
        if_keeps Guarded s.reading s _ (λ e. g) (λ e. same_clients s _ refl refl g)
    on_proceed-Guarded (returned r) v s g = g

    after_slave-Guarded :
        (s : Running device cipher net args) (f : Flow Slaves.Acceptor)
        → Inv net magic_packet args.whitelist args.max_slaves (state f)
        → Guarded s
        → Guarded (after_slave device cipher net args key s f)
    unfolding after_slave
    after_slave-Guarded s (again a) i g = record {
      tuned = g.tuned;
      known_masters = g.known_masters;
      known_slaves = i;
    }
    after_slave-Guarded s (break a) i g = record {
      tuned = g.tuned;
      known_masters = g.known_masters;
      known_slaves = i;
    }

    on_cancel-Guarded :
        (c : CancelThread) (s : Running device cipher net args)
        → Guarded s
        → Guarded (on_cancel device cipher net args key c s)
    unfolding on_cancel
    on_cancel-Guarded waiting s g =
        if_keeps Guarded s.pending (record s { pending = false; cancel = stopping }) s
          (λ e. same_clients s _ refl refl g) (λ e. g)
    on_cancel-Guarded stopping s g = same_clients s _ refl refl g
    on_cancel-Guarded finished s g = g

    step-Guarded :
        (e : Event) (s : Running device cipher net args)
        → Guarded s
        → Guarded (step device cipher net args key e s)
    unfolding step
    step-Guarded (proceed v) s g = on_proceed-Guarded s.main_thread v s g
    step-Guarded (slave r) s g =
        on_slave_keeps device cipher net args key Guarded r s g
          (λ l e. same_clients s _ refl refl g) (λ l e. same_clients s _ refl refl g)
          (λ l.
            after_slave-Guarded (record s { looked = false }) _
              (accept_round-Inv net magic_packet args.whitelist args.max_slaves
                (record r { should_exit = false }) s.slaves g.known_slaves)
              (same_clients s (record s { looked = false }) refl refl g))
    step-Guarded signal s g =
        same_clients (try_send device cipher net args s) _ refl refl (try_send-Guarded s g)
    step-Guarded cancelling s g = on_cancel-Guarded s.cancel s g
    step-Guarded end_of_reading s g = same_clients s _ refl refl g

  module _ (o : Outside device.Handle) where
    open_multi-device :
        (slave_port : ℕ) (ctl : device.Handle) (key : Option (List ℕ))
        → open_multi device cipher net args o slave_port ≡ ok (ctl, key)
        → o.open_device args.device_index ≡ ok ctl
    unfolding open_multi
    open_multi-device slave_port ctl key h = opens.value (ctl, key) h
      where
        Opened : device.Handle × Option (List ℕ) → Type 0
        Opened p = o.open_device args.device_index ≡ ok p.0

        opens : IfOk Opened (open_multi device cipher net args o slave_port)
        opens =
            IfOk-and_then Opened
              (map_err (λ e. device_error open_device_failed) (o.open_device args.device_index)) _
              λ ctl e.
                IfOk-and_then Opened (parse_encryption_key o.hex_decode o.read_file args) _
                  λ key e1.
                    IfOk-and_then Opened (map_err (λ e. config signal_handler_failed) o.set_handler)
                      _
                      λ u e2. IfOk-and_then Opened (bind_master_port o.bind o.passed args) _ λ l e3.
                        IfOk-and_then Opened (map_err io (o.bind args.address slave_port)) _
                          λ l' e4.
                            IfOk-and_then Opened (map_err io (o.set_nonblocking l)) _ λ u' e5.
                              IfOk-ok Opened (ctl, key)
                                (map_err-ok (λ (x : Unit {0}). device_error open_device_failed)
                                  (o.open_device args.device_index) e)

    -- Whatever the order of the steps of its threads, whoever connects, whatever arrives and whatever
    -- fails, once the multi-client mode has started: what a newly opened device has, and keeps under
    -- calls with values in their documented ranges and under switching the automatic gain, the device
    -- has after all steps; every master and every slave that was taken passes the whitelist; and
    -- there are no more slaves than the option allows.
    pub serve_multi_safe :
        ((index : ℕ) (ctl : device.Handle) → o.open_device index ≡ ok ctl → P ctl)
        → (slave_port : ℕ) (es : List Event) (s : Running device cipher net args)
        → serve_multi device cipher net args o slave_port es ≡ ok s
        → P s.masters.board.ctl.value
          × All (λ c. check_whitelist net c.0 args.whitelist ≡ ok tt) s.masters.all_streams
          × All (λ c. check_whitelist net c.0 args.whitelist ≡ ok tt) s.slaves.clients
          × (length s.slaves.clients ≤ args.max_slaves)
    unfolding serve_multi
    serve_multi_safe opened slave_port es s h =
        let begun : (p : device.Handle × Option (List ℕ))
            → open_multi device cipher net args o slave_port ≡ ok p
            → Guarded (begin device cipher net args p.0) =
          λ p e. record {
            tuned = opened args.device_index p.0 (open_multi-device slave_port p.0 p.1 e);
            known_masters = tt;
            known_slaves = record {
              counted = refl;
              bounded = omega arith;
              listed = refl;
              admitted = tt;
            };
          } in
        let all : IfOk Guarded (serve_multi device cipher net args o slave_port es) =
          IfOk-and_then Guarded (open_multi device cipher net args o slave_port) _ (λ p e.
            IfOk-ok Guarded _ (
              run_steps_keeps (step device cipher net args p.1) Guarded (step-Guarded p.1) es
                (begin device cipher net args p.0) (begun p e))) in
        let k : Guarded s = all.value s h in
        (
          k.tuned,
          k.known_masters,
          k.known_slaves.admitted,
          omega (arith, k.known_slaves.counted, k.known_slaves.bounded),
        )
