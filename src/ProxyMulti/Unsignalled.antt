-- ===== src/ProxyMulti/Unsignalled.antt =====
-- `run_proxy_multi` of src/main.rs without a signal.
use mathlib.Core.Path.{subst}
use rtltcp.Prelude.{
  ◌≡◌, refl, ◌∙◌, ◌⊎◌, inl, inr, Bool, true, false, if_keeps, List, [], ◌∷◌, ◌++◌, none, some, All,
}
use rtltcp.Prelude.Loop.{Flow, again, break}
use rtltcp.Prelude.Fair.{run_steps, run_steps-append}
use rtltcp.Io.{Result, ok, err, done, failed}
use rtltcp.Error.{RtlTcpError}
use rtltcp.Control.Whitelist.{Addresses}
use rtltcp.Args.{Args}
use rtltcp.Encryption.{StreamCipher}
use rtltcp.Acceptor as Slaves
use rtltcp.Server.Masters.{Visit}
use rtltcp.Server.Masters.Flags.{GoesOn}
use rtltcp.Serve.{and_then}
use rtltcp.Proxy.{UpstreamConnection}
use rtltcp.Proxy.Forward.{Relayed, relay}
use rtltcp.Proxy.Masters.Flags.{master_round-GoesOn}
use rtltcp.ProxyMulti.{
  Outside, MainThread, accepting, joining, returned, Event, proceed, slave, reading, signal,
  Running, Served, proxied, after_round, seen, on_proceed, after_slave, on_acceptor, on_slave,
  after_reading, on_reading, step, begin, open_proxy, proxy_multi,
}

abbrev pub is_signal : Event → Bool
is_signal signal = true
is_signal (proceed v) = false
is_signal (slave r) = false
is_signal (reading a) = false

module _ (cipher : StreamCipher) (net : Addresses) (args : Args) where
  -- The main thread takes masters, or an error has ended it.
  abbrev pub Serving : MainThread → Type 0
  Serving m = (m ≡ accepting) ⊎ ((e : RtlTcpError) × (m ≡ returned (err e)))

  -- What a step without a signal keeps.
  record Kept (s t : Running cipher net args) : Type 0 where
    down : t.should_exit ≡ false
    serving : Serving t.main_thread
    silent : s.relaying ≡ false → (t.relaying ≡ false) × (t.relayed ≡ s.relayed)

  after_round-Kept :
      (s : Running cipher net args) (r : Served cipher net args s)
      → GoesOn r
      → s.should_exit ≡ false
      → Serving s.main_thread
      → Kept s (after_round cipher net args s r)
  unfolding after_round
  after_round-Kept s none g d m = record { down = d; serving = m; silent = λ h. (h, refl) }
  after_round-Kept s (some (done true p)) g d m = record {
    down = d;
    serving = m;
    silent = λ h. (h, refl);
  }
  after_round-Kept s (some (done false p)) g d m = cc
  after_round-Kept s (some (failed e p)) g d m = record {
    down = d;
    serving = inr (e, refl);
    silent = λ h. (h, refl);
  }

  on_proceed-Kept :
      (m : MainThread) (v : Visit) (s : Running cipher net args)
      → Serving m
      → s.should_exit ≡ false
      → Serving s.main_thread
      → Kept s (on_proceed cipher net args m v s)
  unfolding on_proceed
  on_proceed-Kept accepting v s h d m =
      after_round-Kept s _
        (master_round-GoesOn cipher net s.magic_packet args.whitelist args.read_timeout
          args.write_timeout (seen cipher net args s v) d (proxied cipher net args s) d)
        d m
  on_proceed-Kept joining v s (inl h) d m = cc
  on_proceed-Kept joining v s (inr h) d m = cc (h.1)
  on_proceed-Kept (returned r) v s h d m = record { down = d; serving = m; silent = λ k. (k, refl) }

  after_slave-Kept :
      (s : Running cipher net args) (f : Flow Slaves.Acceptor)
      → s.should_exit ≡ false
      → Serving s.main_thread
      → Kept s (after_slave cipher net args (record s { looked = false }) f)
  unfolding after_slave
  after_slave-Kept s (again a) d m = record { down = d; serving = m; silent = λ h. (h, refl) }
  after_slave-Kept s (break a) d m = record { down = d; serving = m; silent = λ h. (h, refl) }

  on_acceptor-Kept :
      (b : Bool) (r : Slaves.Round) (s : Running cipher net args)
      → s.should_exit ≡ false
      → Serving s.main_thread
      → Kept s (on_acceptor cipher net args b r s)
  unfolding on_acceptor
  on_acceptor-Kept true r s d m = after_slave-Kept s _ d m
  on_acceptor-Kept false r s d m =
      if_keeps (Kept s) s.should_exit (record s { acceptor_ended = true })
        (record s { looked = true })
        (λ k. record { down = d; serving = m; silent = λ h. (h, refl) })
        (λ k. record { down = d; serving = m; silent = λ h. (h, refl) })

  -- For a read that is made, since the thread is there.
  after_reading-Kept :
      (s : Running cipher net args) (f : Flow Relayed)
      → s.relaying ≡ true
      → s.should_exit ≡ false
      → Serving s.main_thread
      → Kept s (after_reading cipher net args s f)
  unfolding after_reading
  after_reading-Kept s (again r) on d m = record { down = d; serving = m; silent = λ h. cc }
  after_reading-Kept s (break r) on d m = record { down = d; serving = m; silent = λ h. cc }

  step-Kept :
      (e : Event) (s : Running cipher net args)
      → is_signal e ≡ false
      → s.should_exit ≡ false
      → Serving s.main_thread
      → Kept s (step cipher net args e s)
  unfolding step on_slave on_reading
  step-Kept (proceed v) s h d m = on_proceed-Kept s.main_thread v s m d m
  step-Kept (slave r) s h d m =
      if_keeps (Kept s) s.acceptor_ended s (on_acceptor cipher net args s.looked r s)
        (λ k. record { down = d; serving = m; silent = λ h. (h, refl) })
        (λ k. on_acceptor-Kept s.looked r s d m)
  step-Kept (reading answer) s h d m =
      if_keeps (Kept s) s.relaying
        (after_reading cipher net args s
          (relay (record { should_exit = s.should_exit; read = answer } ∷ []) s.relayed))
        s (λ on. after_reading-Kept s _ on d m)
        (λ off. record { down = d; serving = m; silent = λ h. (h, refl) })
  step-Kept signal s h d m = cc

  run-Kept :
      (es : List Event) (s : Running cipher net args)
      → All (λ e. is_signal e ≡ false) es
      → s.should_exit ≡ false
      → Serving s.main_thread
      → Kept s (run_steps (step cipher net args) es s)
  unfolding run_steps
  run-Kept [] s h d m = record { down = d; serving = m; silent = λ h. (h, refl) }
  run-Kept (e ∷ es) s (h, hs) d m =
      let k : Kept s (step cipher net args e s) = step-Kept e s h d m in
      let l : Kept (step cipher net args e s)
          (run_steps (step cipher net args) es (step cipher net args e s)) =
        run-Kept es (step cipher net args e s) hs k.down k.serving in
      record {
        down = l.down;
        serving = l.serving;
        silent = λ off.
            let (off', same) = k.silent off in
            let (off'', same') = l.silent off' in (off'', same' ∙ same);
      }

  abbrev ran : UpstreamConnection cipher → List Event → Running cipher net args
  ran u es = run_steps (step cipher net args) es (begin cipher net args u)

  -- A proxy that serves on with what it had relayed.
  abbrev Stranded : Running cipher net args → Running cipher net args → Type 0
  Stranded s t =
      s.relaying ≡ false
      → (t.relaying ≡ false)
        × (t.relayed ≡ s.relayed)
        × (t.should_exit ≡ false)
        × Serving t.main_thread

  ran-Stranded :
      (es fs : List Event) (u : UpstreamConnection cipher)
      → All (λ e. is_signal e ≡ false) es
      → All (λ e. is_signal e ≡ false) fs
      → Stranded (ran u es) (ran u (es ++ fs))
  ran-Stranded es fs u quiet quiet' off =
      let k : Kept (begin cipher net args u) (ran u es) =
        run-Kept es (begin cipher net args u) quiet refl (inl refl) in
      let l : Kept (ran u es) (run_steps (step cipher net args) fs (ran u es)) =
        run-Kept fs (ran u es) quiet' k.down k.serving in
      rw (run_steps-append (step cipher net args) es fs (begin cipher net args u))
        ((l.silent off).0, (l.silent off).1, l.down, l.serving)

  ok_same :
      (a b : Running cipher net args)
      → ◌≡◌ {A = Result RtlTcpError (Running cipher net args)} (ok a) (ok b)
      → a ≡ b
  ok_same a b e = cc

  -- Nothing but a signal leads to the shutdown of the proxy, the end of its upstream included.
  -- Without one, once the thread that reads from upstream has ended, as it does when the upstream
  -- server closes the connection or a read fails, and whatever follows: nothing is relayed any
  -- more, the exit flag stays down, and the main thread goes on to accept masters, unless it has
  -- returned an error.
  pub proxy_multi_goes_on :
      (o : Outside) (es fs : List Event) (s t : Running cipher net args)
      → proxy_multi cipher net args o es ≡ ok s
      → proxy_multi cipher net args o (es ++ fs) ≡ ok t
      → All (λ e. is_signal e ≡ false) es
      → All (λ e. is_signal e ≡ false) fs
      → s.relaying ≡ false
      → (t.relaying ≡ false)
        × (t.relayed ≡ s.relayed)
        × (t.should_exit ≡ false)
        × Serving t.main_thread
  unfolding proxy_multi
  proxy_multi_goes_on o es fs s t h k quiet quiet' off = go (open_proxy cipher net args o) h k
    where
      go :
          (r : Result RtlTcpError (UpstreamConnection cipher))
          → and_then r (λ u. ok (ran u es)) ≡ ok s
          → and_then r (λ u. ok (ran u (es ++ fs))) ≡ ok t
          → (t.relaying ≡ false)
            × (t.relayed ≡ s.relayed)
            × (t.should_exit ≡ false)
            × Serving t.main_thread
      go (err e) h k = cc
      go (ok u) h k =
          subst (λ s. Stranded s t) (ok_same (ran u es) s h)
            (subst (Stranded (ran u es)) (ok_same (ran u (es ++ fs)) t k)
              (ran-Stranded es fs u quiet quiet'))
            off
