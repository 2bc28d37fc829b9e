-- ===== src/ServeMulti/Closed.antt =====
-- How the main thread of `run_serve_multi` of src/main.rs comes to its end, and what it leaves.
use mathlib.Core.Path.{subst}
use rtltcp.Io.Write.{Socket}
use rtltcp.Prelude.{
  arith, ◌+◌, ◌≤◌, ◌++◌, [], length, length-append, append-nil, append_assoc, ap, ◌∙◌, ℕ, ◌≡◌, refl,
  sym, ◌⊎◌, inl, inr, Bool, true, false, Bool-cases, if_keeps, List, Option, none, some,
}
use rtltcp.Prelude.Fair.{run_steps_keeps}
use rtltcp.Io.{ok, err, Outcome, done, failed}
use rtltcp.Error.{RtlTcpError}
use rtltcp.Control.{magic_packet}
use rtltcp.Control.Whitelist.{Addresses}
use rtltcp.Args.{Args}
use rtltcp.Encryption.{StreamCipher}
use rtltcp.Server.{Controller}
use rtltcp.Server.Masters.{Visit, Masters}
use rtltcp.Server.Masters.Flags.{GoesOn, master_round-GoesOn}
use rtltcp.Serve.{CancelThread, waiting, stopping, finished, is_finished}
use rtltcp.Serve.Ran.{IfOk, IfOk-ok, IfOk-and_then}
use rtltcp.ServeMulti.{
  Outside, MainThread, accepting, joining_cancel, joining_read, returned, Event, proceed, slave,
  signal, cancelling, end_of_reading, Running, accepts, all_streams, after_round, seen, on_proceed,
  on_cancel, step, open_multi, begin, serve_multi,
}
use rtltcp.ServeMulti.Quiet.{due, Added, Quiet, step-Quiet}

pub is_finished-finished : (c : CancelThread) → is_finished c ≡ true → c ≡ finished
is_finished-finished waiting h = cc
is_finished-finished stopping h = cc
is_finished-finished finished h = refl

module _ (device : Controller) (cipher : StreamCipher) (net : Addresses) (args : Args) where
  -- The streams that were shut down are all that there are, but for one that is added late.
  abbrev Shut : Running device cipher net args → Type 0
  Shut s =
      (late : List Socket) × (all_streams device cipher net args s ≡ s.closed ++ late)
      × (length late + due device cipher net args s.looked ≤ 1)

  Shut-now :
      (s : Running device cipher net args)
      → Shut (record s { closed = all_streams device cipher net args s })
  Shut-now s =
      ([], sym (append-nil (all_streams device cipher net args s)), omega (arith, go s.looked))
    where
      go : (b : Bool) → due device cipher net args b ≤ 1
      go true = omega arith
      go false = omega arith

  Added-Shut :
      (s t : Running device cipher net args)
      → t.closed ≡ s.closed
      → Added device cipher net args s t
      → Shut s
      → Shut t
  Added-Shut s t c (new, more, few) (late, all, one) = (
    late ++ new,
    more
        ∙ ap (λ ks. ks ++ new) all
        ∙ append_assoc s.closed late new
        ∙ ap (λ k. k ++ (late ++ new)) (sym c),
    omega (arith, length-append late new, few, one),
  )

  -- What holds where the main thread is.
  abbrev Staged : MainThread → Running device cipher net args → Type 0
  Staged accepting s = Unit {0}
  Staged joining_cancel s = s.should_exit ≡ true
  Staged joining_read s = (s.should_exit ≡ true) × (s.cancel ≡ finished)
  Staged (returned (ok u)) s =
      (s.should_exit ≡ true) × (s.cancel ≡ finished) × (s.reading ≡ false) × Shut s
  Staged (returned (err e)) s = Unit {0}

  abbrev Stage : Running device cipher net args → Type 0
  Stage s = Staged s.main_thread s

  staged :
      (m : MainThread) (s : Running device cipher net args)
      → m ≡ s.main_thread
      → Staged m s
      → Stage s
  staged m s e h = subst (λ m. Staged m s) e h

  Quiet-Staged :
      (m : MainThread) (s t : Running device cipher net args)
      → Quiet device cipher net args s t
      → Staged m s
      → Staged m t
  Quiet-Staged accepting s t q h = tt
  Quiet-Staged joining_cancel s t q h = q.exit_kept h
  Quiet-Staged joining_read s t q (h, k) = (q.exit_kept h, cc (q.same_cancel, k))
  Quiet-Staged (returned (err e)) s t q h = tt
  Quiet-Staged (returned (ok u)) s t q (h, k, r, c) = (
    q.exit_kept h,
    cc (q.same_cancel, k),
    q.reading_kept r,
    Added-Shut s t q.same_closed (q.more_streams h) c,
  )

  Quiet-Stage :
      (s t : Running device cipher net args) → Quiet device cipher net args s t → Stage s → Stage t
  Quiet-Stage s t q h =
      staged s.main_thread t (sym q.same_main) (Quiet-Staged s.main_thread s t q h)

  module _ (key : Option (List ℕ)) where
    after_round-Stage :
        (s : Running device cipher net args)
        → (r : Option (Outcome (Masters device.Handle) RtlTcpError Bool))
        → s.main_thread ≡ accepting
        → (s.should_exit ≡ true) ⊎ GoesOn r
        → Stage (after_round device cipher net args s r)
    unfolding after_round
    after_round-Stage s none at h = staged accepting _ (sym at) tt
    after_round-Stage s (some (done true m)) at h = staged accepting _ (sym at) tt
    after_round-Stage s (some (failed e m)) at h = tt
    after_round-Stage s (some (done false m)) at (inr h) = cc
    after_round-Stage s (some (done false m)) at (inl h) =
        let t : Running device cipher net args = record s {
          masters = m;
          main_thread = joining_cancel;
        } in
        if_keeps Stage (accepts device cipher net args t) (record t { pending = true }) t (λ a. h)
          (λ a. h)

    on_proceed-Stage :
        (m : MainThread) (v : Visit) (s : Running device cipher net args)
        → s.main_thread ≡ m
        → Staged m s
        → Stage (on_proceed device cipher net args key m v s)
    unfolding on_proceed
    on_proceed-Stage accepting v s at h =
        after_round-Stage s _ at (elim (Bool-cases s.should_exit) [
          | inl up ↦ inl up
          | inr down ↦ inr (
              master_round-GoesOn device cipher net magic_packet key args.whitelist
                args.read_timeout args.write_timeout (seen device cipher net args key s v) down
                s.masters down)
        ])
    on_proceed-Stage joining_cancel v s at h =
        if_keeps Stage (is_finished s.cancel) (record s { main_thread = joining_read }) s
          (λ f. (h, is_finished-finished s.cancel f)) (λ f. staged joining_cancel s (sym at) h)
    on_proceed-Stage joining_read v s at (h, k) =
        if_keeps Stage s.reading s
          (record s {
            main_thread = returned (ok tt);
            closed = all_streams device cipher net args s;
          })
          (λ r. staged joining_read s (sym at) (h, k)) (λ r. (h, k, r, Shut-now s))
    on_proceed-Stage (returned r) v s at h = staged (returned r) s (sym at) h

    cancelling-Staged :
        (m : MainThread) (c : CancelThread) (s : Running device cipher net args)
        → s.cancel ≡ c
        → Staged m s
        → Staged m (on_cancel device cipher net args key c s)
    unfolding on_cancel
    cancelling-Staged accepting c s e h = tt
    cancelling-Staged (returned (err k)) c s e h = tt
    cancelling-Staged m finished s e h = h
    cancelling-Staged joining_cancel stopping s e h = refl
    cancelling-Staged joining_cancel waiting s e h =
        if_keeps (Staged joining_cancel) s.pending (record s { pending = false; cancel = stopping })
          s (λ p. h) (λ p. h)
    cancelling-Staged joining_read waiting s e h = cc (h.1)
    cancelling-Staged joining_read stopping s e h = cc (h.1)
    cancelling-Staged (returned (ok u)) waiting s e (h, k, l, c) = cc
    cancelling-Staged (returned (ok u)) stopping s e (h, k, l, c) = cc

    -- The cancel thread leaves the main thread where it is.
    pub cancelling-main :
        (c : CancelThread) (s : Running device cipher net args)
        → (on_cancel device cipher net args key c s).main_thread ≡ s.main_thread
    unfolding on_cancel
    cancelling-main waiting s =
        if_keeps (λ (t : Running device cipher net args). t.main_thread ≡ s.main_thread) s.pending
          (record s { pending = false; cancel = stopping }) s (λ p. refl) (λ p. refl)
    cancelling-main stopping s = refl
    cancelling-main finished s = refl

    step-Stage :
        (e : Event) (s : Running device cipher net args)
        → Stage s
        → Stage (step device cipher net args key e s)
    step-Stage (proceed v) s h = unfold step in on_proceed-Stage s.main_thread v s refl h
    step-Stage cancelling s h =
        unfold step in
        staged s.main_thread _ (sym (cancelling-main s.cancel s))
          (cancelling-Staged s.main_thread s.cancel s refl h)
    step-Stage (slave r) s h =
        Quiet-Stage s _ (step-Quiet device cipher net args key (slave r) s tt) h
    step-Stage signal s h = Quiet-Stage s _ (step-Quiet device cipher net args key signal s tt) h
    step-Stage end_of_reading s h =
        Quiet-Stage s _ (step-Quiet device cipher net args key end_of_reading s tt) h

  -- Whatever the order of the steps and whatever fails, once `run_serve_multi` has returned `Ok(())`
  -- the exit flag is up, the cancel thread and the reading of the device have ended, and the streams
  -- that were shut down are all those that the masters and the slaves have, but for one at most: that
  -- of a slave that the acceptor, past its look at the flag, puts there after the shutdown.
  pub serve_multi_closes :
      (o : Outside device.Handle) (slave_port : ℕ) (es : List Event)
      (s : Running device cipher net args)
      → serve_multi device cipher net args o slave_port es ≡ ok s
      → s.main_thread ≡ returned (ok tt)
      → (s.should_exit ≡ true)
        × (s.cancel ≡ finished)
        × (s.reading ≡ false)
        × ((late : List Socket) × (all_streams device cipher net args s ≡ s.closed ++ late)
            × (length late ≤ 1))
  unfolding serve_multi
  serve_multi_closes o slave_port es s h over =
      let all : IfOk Stage (serve_multi device cipher net args o slave_port es) =
        IfOk-and_then Stage (open_multi device cipher net args o slave_port) _ (λ p e.
          IfOk-ok Stage _ (
            run_steps_keeps (step device cipher net args p.1) Stage (step-Stage p.1) es
              (begin device cipher net args p.0) tt)) in
      let (up, ended, read, (late, shut, few)) = subst (λ m. Staged m s) over (all.value s h) in
      (up, ended, read, (late, shut, omega (arith, few)))
