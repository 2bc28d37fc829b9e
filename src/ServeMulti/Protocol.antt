-- ===== src/ServeMulti/Protocol.antt =====
-- The shutdown of `run_serve_multi` of src/main.rs as a protocol of its own, and that the threads
-- follow it.
use rtltcp.Prelude.{
  ℕ, ◌≡◌, refl, ◌⊎◌, inl, inr, Bool, true, false, Bool-cases, if_keeps, List, Option, none, some,
}
use rtltcp.Prelude.Loop.{Flow, again, break}
use rtltcp.Prelude.Fair.{run_steps_keeps}
use rtltcp.Io.{ok, err, Outcome, done, failed}
use rtltcp.Error.{RtlTcpError}
use rtltcp.Control.{magic_packet}
use rtltcp.Control.Whitelist.{Addresses}
use rtltcp.Args.{Args}
use rtltcp.Encryption.{StreamCipher}
use rtltcp.Acceptor as Slaves
use rtltcp.Server.{Controller}
use rtltcp.Server.Masters.{Visit, Masters}
use rtltcp.Server.Masters.Flags.{GoesOn, master_round-GoesOn}
use rtltcp.Serve.{CancelThread, waiting, stopping, finished, is_finished}
use rtltcp.Serve.Ran.{IfOk, IfOk-ok, IfOk-and_then}
use rtltcp.ServeMulti.{
  Outside, MainThread, accepting, joining_cancel, joining_read, returned, Event, proceed, slave,
  signal, cancelling, end_of_reading, Running, accepts, after_round, seen, on_proceed, after_slave,
  on_cancel, step, open_multi, begin, serve_multi,
}
use rtltcp.ServeMulti.Accepting.{on_slave_keeps}
use rtltcp.ServeMulti.Closed.{is_finished-finished}

-- What the protocol is about: clients, samples and messages do not show.
pub record Phase : Type 0 where
  pub main_thread : MainThread
  pub should_exit : Bool
  pub cancel : CancelThread
  pub reading : Bool

-- The moves of the protocol. The main thread leaves its accept loop with the flag up, or with an
-- error; it waits for the cancel thread, and then for the reading.
pub data Move : Phase → Phase → Type 0 where
  stay : {a : Phase} → Move a a
  ask : {a : Phase} → Move a (record a { should_exit = true })
  end_reading : {a : Phase} → Move a (record a { reading = false })
  notice : {a : Phase} → a.cancel ≡ waiting → Move a (record a { cancel = stopping })
  stop :
      {a : Phase}
      → a.cancel ≡ stopping
      → Move a (record a { cancel = finished; should_exit = true })
  leave :
      {a : Phase}
      → a.main_thread ≡ accepting
      → a.should_exit ≡ true
      → Move a (record a { main_thread = joining_cancel })
  fail :
      {a : Phase} {e : RtlTcpError}
      → a.main_thread ≡ accepting
      → Move a (record a { main_thread = returned (err e) })
  join_cancel :
      {a : Phase}
      → a.main_thread ≡ joining_cancel
      → a.cancel ≡ finished
      → Move a (record a { main_thread = joining_read })
  join_read :
      {a : Phase}
      → a.main_thread ≡ joining_read
      → a.reading ≡ false
      → Move a (record a { main_thread = returned (ok tt) })

-- Moves one after another.
pub data Moves (a : Phase) : Phase → Type 0 where
  start : Moves a a
  more : {b c : Phase} → Moves a b → Move b c → Moves a c

module _ (device : Controller) (cipher : StreamCipher) (net : Addresses) (args : Args) where
  abbrev pub phase : Running device cipher net args → Phase
  phase s = record {
    main_thread = s.main_thread;
    should_exit = s.should_exit;
    cancel = s.cancel;
    reading = s.reading;
  }

  abbrev Follows : Running device cipher net args → Running device cipher net args → Type 0
  Follows s t = Move (phase s) (phase t)

  after_round-Follows :
      (s : Running device cipher net args)
      (r : Option (Outcome (Masters device.Handle) RtlTcpError Bool))
      → s.main_thread ≡ accepting
      → (s.should_exit ≡ true) ⊎ GoesOn r
      → Follows s (after_round device cipher net args s r)
  unfolding after_round
  after_round-Follows s none at h = stay
  after_round-Follows s (some (done true m)) at h = stay
  after_round-Follows s (some (failed e m)) at h = fail at
  after_round-Follows s (some (done false m)) at (inr h) = cc
  after_round-Follows s (some (done false m)) at (inl h) =
      let t : Running device cipher net args = record s {
        masters = m;
        main_thread = joining_cancel;
      } in
      if_keeps (Follows s) (accepts device cipher net args t) (record t { pending = true }) t
        (λ a. leave at h) (λ a. leave at h)

  module _ (key : Option (List ℕ)) where
    on_proceed-Follows :
        (m : MainThread) (v : Visit) (s : Running device cipher net args)
        → s.main_thread ≡ m
        → Follows s (on_proceed device cipher net args key m v s)
    unfolding on_proceed
    on_proceed-Follows accepting v s at =
        after_round-Follows s _ at (elim (Bool-cases s.should_exit) [
          | inl up ↦ inl up
          | inr down ↦ inr (
              master_round-GoesOn device cipher net magic_packet key args.whitelist
                args.read_timeout args.write_timeout (seen device cipher net args key s v) down
                s.masters down)
        ])
    on_proceed-Follows joining_cancel v s at =
        if_keeps (Follows s) (is_finished s.cancel) (record s { main_thread = joining_read }) s
          (λ f. join_cancel at (is_finished-finished s.cancel f)) (λ f. stay)
    on_proceed-Follows joining_read v s at =
        if_keeps (Follows s) s.reading s _ (λ r. stay) (λ r. join_read at r)
    on_proceed-Follows (returned r) v s at = stay

    after_slave-Follows :
        (s : Running device cipher net args) (f : Flow Slaves.Acceptor)
        → Follows s (after_slave device cipher net args key s f)
    unfolding after_slave
    after_slave-Follows s (again a) = stay
    after_slave-Follows s (break a) = stay

    on_cancel-Follows :
        (c : CancelThread) (s : Running device cipher net args)
        → s.cancel ≡ c
        → Follows s (on_cancel device cipher net args key c s)
    unfolding on_cancel
    on_cancel-Follows waiting s at =
        if_keeps (Follows s) s.pending (record s { pending = false; cancel = stopping }) s
          (λ p. notice at) (λ p. stay)
    on_cancel-Follows stopping s at = stop at
    on_cancel-Follows finished s at = stay

    step-Follows :
        (e : Event) (s : Running device cipher net args)
        → Follows s (step device cipher net args key e s)
    unfolding step
    step-Follows (proceed v) s = on_proceed-Follows s.main_thread v s refl
    step-Follows (slave r) s =
        on_slave_keeps device cipher net args key (Follows s) r s stay (λ l e. stay) (λ l e. stay)
          (λ l. after_slave-Follows (record s { looked = false }) _)
    step-Follows signal s =
        if_keeps
          (λ (t : Running device cipher net args). Follows s (record t { should_exit = true }))
          (accepts device cipher net args s) (record s { pending = true }) s (λ a. ask) (λ a. ask)
    step-Follows cancelling s = on_cancel-Follows s.cancel s refl
    step-Follows end_of_reading s = end_reading

  abbrev pub serving : Phase
  serving = record {
    main_thread = accepting;
    should_exit = false;
    cancel = waiting;
    reading = true;
  }

  -- Whatever the order of the steps of its threads, whoever connects and whatever fails, the
  -- multi-client mode follows the protocol of its shutdown: what the main thread, the exit flag, the
  -- cancel thread and the reading have come to is reached by moves of the protocol.
  pub serve_multi-Moves :
      (o : Outside device.Handle) (slave_port : ℕ) (es : List Event)
      (s : Running device cipher net args)
      → serve_multi device cipher net args o slave_port es ≡ ok s
      → Moves serving (phase s)
  unfolding serve_multi
  serve_multi-Moves o slave_port es s h =
      let P : Running device cipher net args → Type 0 = λ t. Moves serving (phase t) in
      let all : IfOk P (serve_multi device cipher net args o slave_port es) =
        IfOk-and_then P (open_multi device cipher net args o slave_port) _ (λ p e. IfOk-ok P _ (
          run_steps_keeps (step device cipher net args p.1) P
            (λ e t m. more m (step-Follows p.1 e t)) es (begin device cipher net args p.0)
            start)) in
      all.value s h
