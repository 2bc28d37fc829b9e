-- ===== src/ServeMulti/Quiet.antt =====
-- The steps of `run_serve_multi` of src/main.rs that are not its main thread's nor its cancel
-- thread's: the acceptor of slaves, a signal, and the end of the reading.
use rtltcp.Io.Write.{Socket}
use rtltcp.Prelude.{
  ℕ, ◌+◌, ◌≤◌, ◌++◌, [], map, length, append-nil, append_assoc, sym, ap, ◌≡◌, refl, Bool, true,
  false, not, ◌&&◌, ◌||◌, if_keeps, List, Option, arith,
}
use rtltcp.Prelude.Loop.{Flow, again, break, state}
use rtltcp.Control.{magic_packet}
use rtltcp.Control.Whitelist.{Addresses}
use rtltcp.Args.{Args}
use rtltcp.Encryption.{StreamCipher}
use rtltcp.Acceptor as Slaves
use rtltcp.Acceptor.Slots.{accept_round-Grown, Grown}
use rtltcp.Server.{Controller}
use rtltcp.Serve.{is_finished, CancelThread, waiting, stopping, finished}
use rtltcp.Serve.Cancel.{is_waiting}
use rtltcp.ServeMulti.Accepting.{on_slave_keeps}
use rtltcp.ServeMulti.{
  Event, proceed, slave, signal, cancelling, end_of_reading, Running, accepts, try_send,
  all_streams, after_slave, step,
}

module _ (device : Controller) (cipher : StreamCipher) (net : Addresses) (args : Args) where
  abbrev pub asked : Running device cipher net args → Bool
  asked s = not (is_waiting s.cancel) || s.pending

  -- With the flag up the acceptor puts at most one more stream into the vector, if it is past its
  -- look at the flag.
  abbrev pub due : Bool → ℕ
  due true = 1
  due false = 0

  abbrev pub Added : Running device cipher net args → Running device cipher net args → Type 0
  Added s t =
      (new : List Socket) × (all_streams device cipher net args t
        ≡ all_streams device cipher net args s ++ new)
      × (length new + due t.looked ≤ due s.looked)

  pub same-Added :
      (s t : Running device cipher net args)
      → t.masters ≡ s.masters
      → t.slaves ≡ s.slaves
      → t.looked ≡ s.looked
      → Added s t
  same-Added s t m a l = (
    [],
    rw (m, a) (sym (append-nil (all_streams device cipher net args s))),
    omega (arith, ap due l),
  )

  -- What such a step leaves as it was, and what it does not undo.
  pub record Quiet (s t : Running device cipher net args) : Type 0 where
    pub same_main : t.main_thread ≡ s.main_thread
    pub same_cancel : t.cancel ≡ s.cancel
    pub same_closed : t.closed ≡ s.closed
    pub exit_kept : s.should_exit ≡ true → t.should_exit ≡ true
    pub asked_kept : asked s ≡ true → asked t ≡ true
    pub reading_kept : s.reading ≡ false → t.reading ≡ false
    pub more_streams : s.should_exit ≡ true → Added s t

  -- A message that is not taken is there already, or the thread that takes it has ended.
  pub refused_asked :
      (c : CancelThread) (p : Bool)
      → not p && not (is_finished c) ≡ false
      → not (is_waiting c) || p ≡ true
  refused_asked waiting true h = refl
  refused_asked waiting false h = cc
  refused_asked stopping p h = refl
  refused_asked finished p h = refl

  pub try_send-asked :
      (s : Running device cipher net args) → asked (try_send device cipher net args s) ≡ true
  try_send-asked s =
      if_keeps (λ t. asked t ≡ true) (accepts device cipher net args s)
        (record s { pending = true }) s (λ a. ground arith)
        (λ a. refused_asked s.cancel s.pending a)

  signal-Quiet :
      (key : Option (List ℕ)) (s : Running device cipher net args)
      → Quiet s (step device cipher net args key signal s)
  unfolding step
  signal-Quiet key s =
      let sent = try_send-asked s in
      let quiet : (t : Running device cipher net args)
          → t.main_thread ≡ s.main_thread
          → t.cancel ≡ s.cancel
          → t.closed ≡ s.closed
          → t.reading ≡ s.reading
          → t.masters ≡ s.masters
          → t.slaves ≡ s.slaves
          → t.looked ≡ s.looked
          → asked t ≡ true
          → Quiet s (record t { should_exit = true }) =
        λ t m c l r ms ss ll a. record {
          same_main = m;
          same_cancel = c;
          same_closed = l;
          exit_kept = λ up. refl;
          asked_kept = λ h. a;
          reading_kept = λ h. rw r h;
          more_streams = λ up. same-Added s (record t { should_exit = true }) ms ss ll;
        } in
      if_keeps (λ t. asked t ≡ true → Quiet s (record t { should_exit = true }))
        (accepts device cipher net args s) (record s { pending = true }) s
        (λ h a. quiet (record s { pending = true }) refl refl refl refl refl refl refl a)
        (λ h a. quiet s refl refl refl refl refl refl refl a) sent

  added :
      (s : Running device cipher net args) (a : Slaves.Acceptor) (new : List Socket)
      → a.all_streams ≡ s.slaves.all_streams ++ new
      → map (λ c. c.1.outgoing) s.masters.all_streams ++ a.all_streams
        ≡ all_streams device cipher net args s ++ new
  added s a new grown =
      rw grown (
        sym (append_assoc (map (λ c. c.1.outgoing) s.masters.all_streams) s.slaves.all_streams new))

  after_slave-Quiet :
      (key : Option (List ℕ)) (s : Running device cipher net args) (f : Flow Slaves.Acceptor)
      → s.looked ≡ true
      → Grown net magic_packet args.whitelist args.max_slaves s.slaves (state f)
      → Quiet s (after_slave device cipher net args key (record s { looked = false }) f)
  unfolding after_slave
  after_slave-Quiet key s (again a) h (new, grown, one) = record {
    same_main = refl;
    same_cancel = refl;
    same_closed = refl;
    exit_kept = λ up. up;
    asked_kept = λ k. k;
    reading_kept = λ k. k;
    more_streams = λ up. (new, added s a new grown, omega (arith, ap due h));
  }
  after_slave-Quiet key s (break a) h (new, grown, one) = record {
    same_main = refl;
    same_cancel = refl;
    same_closed = refl;
    exit_kept = λ up. up;
    asked_kept = λ k. k;
    reading_kept = λ k. k;
    more_streams = λ up. (new, added s a new grown, omega (arith, ap due h));
  }

  unchanged : (s : Running device cipher net args) → Quiet s s
  unchanged s = record {
    same_main = refl;
    same_cancel = refl;
    same_closed = refl;
    exit_kept = λ up. up;
    asked_kept = λ k. k;
    reading_kept = λ k. k;
    more_streams = λ up. same-Added s s refl refl refl;
  }

  slave-Quiet :
      (key : Option (List ℕ)) (r : Slaves.Round) (s : Running device cipher net args)
      → Quiet s (step device cipher net args key (slave r) s)
  unfolding step
  slave-Quiet key r s =
      on_slave_keeps device cipher net args key (Quiet s) r s (unchanged s)
        (λ l e. record {
          same_main = refl;
          same_cancel = refl;
          same_closed = refl;
          exit_kept = λ up. up;
          asked_kept = λ k. k;
          reading_kept = λ k. k;
          more_streams = λ up. same-Added s (record s { acceptor_ended = true }) refl refl refl;
        })
        (λ l e. record {
          same_main = refl;
          same_cancel = refl;
          same_closed = refl;
          exit_kept = λ up. up;
          asked_kept = λ k. k;
          reading_kept = λ k. k;
          more_streams = λ up. cc;
        })
        (λ l. after_slave-Quiet key s _ l (
          accept_round-Grown net magic_packet args.whitelist args.max_slaves
            (record r { should_exit = false }) s.slaves))

  end_of_reading-Quiet :
      (key : Option (List ℕ)) (s : Running device cipher net args)
      → Quiet s (step device cipher net args key end_of_reading s)
  unfolding step
  end_of_reading-Quiet key s = record {
    same_main = refl;
    same_cancel = refl;
    same_closed = refl;
    exit_kept = λ up. up;
    asked_kept = λ k. k;
    reading_kept = λ k. refl;
    more_streams = λ up. same-Added s (record s { reading = false }) refl refl refl;
  }

  -- The event is none of the main thread or the cancel thread.
  abbrev pub IsOutside : Event → Type 0
  IsOutside (proceed v) = ⊥
  IsOutside (slave r) = Unit {0}
  IsOutside signal = Unit {0}
  IsOutside cancelling = ⊥
  IsOutside end_of_reading = Unit {0}

  pub step-Quiet :
      (key : Option (List ℕ)) (e : Event) (s : Running device cipher net args)
      → IsOutside e
      → Quiet s (step device cipher net args key e s)
  step-Quiet key (proceed v) s o = absurd o
  step-Quiet key (slave r) s o = slave-Quiet key r s
  step-Quiet key signal s o = signal-Quiet key s
  step-Quiet key cancelling s o = absurd o
  step-Quiet key end_of_reading s o = end_of_reading-Quiet key s
