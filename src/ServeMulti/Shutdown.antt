-- ===== src/ServeMulti/Shutdown.antt =====
-- That `run_serve_multi` of src/main.rs returns after a signal.
use mathlib.Core.Path.{subst}
use rtltcp.Prelude.{
  ℕ, ◌≤◌, ◌≡◌, refl, sym, ap, ◌∙◌, inl, inr, Bool, false, if_keeps, List, [], ◌∷◌, ◌++◌, concat,
  length, All, Option, arith,
}
use rtltcp.Prelude.Fair.{run_steps, run_steps-append, run_steps_keeps}
use rtltcp.Io.{Result, ok}
use rtltcp.Error.{RtlTcpError}
use rtltcp.Control.Whitelist.{Addresses}
use rtltcp.Args.{Args}
use rtltcp.Encryption.{StreamCipher}
use rtltcp.Server.{Controller}
use rtltcp.Server.Masters.{Visit}
use rtltcp.Serve.Ran.{IfOk, IfOk-ok, IfOk-and_then}
use rtltcp.ServeMulti.{
  Outside, MainThread, accepting, joining_cancel, joining_read, returned, Event, proceed, slave,
  signal, cancelling, end_of_reading, Running, on_proceed, step, open_multi, begin, serve_multi,
}
use rtltcp.ServeMulti.Quiet.{try_send-asked, Quiet, step-Quiet}
use rtltcp.ServeMulti.Closed.{cancelling-main}
use rtltcp.ServeMulti.Progress.{main_rank, ready, Progress, step-Progress}
use rtltcp.ServeMulti.Progress as P
use rtltcp.ServeMulti.Turns.{Proceeds, Fair, rounds_end}

module _ (device : Controller) (cipher : StreamCipher) (net : Addresses) (args : Args) where
  module _ (key : Option (List ℕ)) where
    abbrev State : Type 0
    State = Running device cipher net args

    abbrev next : Event → State → State
    next e s = step device cipher net args key e s

    abbrev Ending : State → Type 0
    Ending s = P.Ending device cipher net args key s

    abbrev measure : State → ℕ
    measure s = P.measure device cipher net args key s

    abbrev helps : Event → State → Bool
    helps e s = P.helps device cipher net args key e s

    progress :
        (e : Event) (s : State) → Ending s → Progress device cipher net args key e s (next e s)
    progress e s i = step-Progress device cipher net args key e s i

    abbrev Returned : State → Type 0
    Returned s = (r : Result RtlTcpError (Unit {0})) × (s.main_thread ≡ returned r)

    Quiet-Returned : (s t : State) → Quiet device cipher net args s t → Returned s → Returned t
    Quiet-Returned s t q (r, e) = (r, q.same_main ∙ e)

    step-Returned : (e : Event) (s : State) → Returned s → Returned (next e s)
    step-Returned (proceed v) s (r, e) =
        unfold step in
        subst (λ m. Returned (on_proceed device cipher net args key m v s)) (sym e)
          (unfold on_proceed in (r, e))
    step-Returned cancelling s (r, e) =
        unfold step in (r, cancelling-main device cipher net args key s.cancel s ∙ e)
    step-Returned (slave x) s h =
        Quiet-Returned s _ (step-Quiet device cipher net args key (slave x) s tt) h
    step-Returned signal s h =
        Quiet-Returned s _ (step-Quiet device cipher net args key signal s tt) h
    step-Returned end_of_reading s h =
        Quiet-Returned s _ (step-Quiet device cipher net args key end_of_reading s tt) h

    -- The main thread waits for a reading that has ended, or has returned.
    abbrev Late : State → Type 0
    Late s = Ending s × (measure s ≡ 0) × (s.reading ≡ false)

    next-Late : (e : Event) (s : State) → Late s → Late (next e s)
    next-Late e s (i, over, ended) =
        let p = progress e s i in
        (
          p.ending,
          elim p.falls [ inl less ↦ omega (arith, less, over) | inr same ↦ same.0 ∙ over ],
          p.reading_kept ended,
        )

    proceed-returns :
        (m : MainThread) (v : Visit) (s : State)
        → s.main_thread ≡ m
        → Late s
        → Returned (on_proceed device cipher net args key m v s)
    unfolding on_proceed
    proceed-returns accepting v s at (i, over, ended) =
        absurd (omega (arith, ap main_rank at, over))
    proceed-returns joining_cancel v s at (i, over, ended) =
        absurd (omega (arith, ap main_rank at, over))
    proceed-returns joining_read v s at (i, over, ended) =
        if_keeps Returned s.reading s _ (λ h. cc) (λ h. (ok tt, refl))
    proceed-returns (returned r) v s at h = (r, at)

    run-Returned :
        (es : List Event) (s : State) → Late s → Proceeds es → Returned (run_steps next es s)
    unfolding run_steps
    run-Returned [] s h p = absurd p
    run-Returned (proceed v ∷ es) s h p =
        run_steps_keeps next Returned step-Returned es (next (proceed v) s)
          (unfold step in proceed-returns s.main_thread v s refl h)
    run-Returned (slave r ∷ es) s h p = run-Returned es _ (next-Late (slave r) s h) p
    run-Returned (signal ∷ es) s h p = run-Returned es _ (next-Late signal s h) p
    run-Returned (cancelling ∷ es) s h p = run-Returned es _ (next-Late cancelling s h) p
    run-Returned (end_of_reading ∷ es) s h p = run-Returned es _ (next-Late end_of_reading s h) p

    signal-Ending : (s : State) → Ending (next signal s)
    unfolding step
    signal-Ending s = (refl, try_send-asked device cipher net args s)

    -- The end, from any state.
    run_ends :
        (before : List Event) (rounds : List (List Event)) (after : List Event) (s : State)
        → All Fair rounds
        → 4 ≤ length rounds
        → Proceeds after
        → Returned
            (run_steps next (before ++ (signal ∷ (concat rounds ++ (end_of_reading ∷ after)))) s)
    run_ends before rounds after s fair long p =
        let t : State = next signal (run_steps next before s) in
        let u : State = run_steps next (concat rounds) t in
        let ending : Ending t = signal-Ending (run_steps next before s) in
        let i : Ending u =
          run_steps_keeps next Ending (λ e s i. (progress e s i).ending) (concat rounds) t ending in
        let q = progress end_of_reading u i in
        let late : Late (next end_of_reading u) = (
          q.ending,
          elim q.falls [
            | inl less ↦
                omega (arith, less, rounds_end device cipher net args key rounds t ending fair long)
            | inr same ↦ same.0 ∙ rounds_end device cipher net args key rounds t ending fair long
          ],
          unfold step in refl,
        ) in
        rw (run_steps-append next before (signal ∷ (concat rounds ++ (end_of_reading ∷ after))) s) (
          unfold run_steps in
          rw (run_steps-append next (concat rounds) (end_of_reading ∷ after) t)
            (unfold run_steps in run-Returned after (next end_of_reading u) late p))

  abbrev HasReturned : Running device cipher net args → Type 0
  HasReturned s = (r : Result RtlTcpError (Unit {0})) × (s.main_thread ≡ returned r)

  -- After a signal, whatever went before and whatever fails: four rounds in each of which the main
  -- thread and the cancel thread have a turn, then the end of the reading of the device, and then a
  -- turn of the main thread are enough for `run_serve_multi` to have returned; the other steps, of the
  -- acceptor of slaves too, may stand anywhere between them. A turn of the main thread lasts as long
  -- as the master that it serves.
  pub serve_multi_stops :
      (o : Outside device.Handle) (slave_port : ℕ) (before : List Event)
      (rounds : List (List Event)) (after : List Event) (s : Running device cipher net args)
      → serve_multi device cipher net args o slave_port
          (before ++ (signal ∷ (concat rounds ++ (end_of_reading ∷ after))))
        ≡ ok s
      → All Fair rounds
      → 4 ≤ length rounds
      → Proceeds after
      → (r : Result RtlTcpError (Unit {0})) × (s.main_thread ≡ returned r)
  unfolding serve_multi
  serve_multi_stops o slave_port before rounds after s h fair long p =
      let all : IfOk HasReturned (
          serve_multi device cipher net args o slave_port
            (before ++ (signal ∷ (concat rounds ++ (end_of_reading ∷ after))))) =
        IfOk-and_then HasReturned (open_multi device cipher net args o slave_port) _ (λ q e.
          IfOk-ok HasReturned _
            (run_ends q.1 before rounds after (begin device cipher net args q.0) fair long p)) in
      all.value s h
