-- ===== src/Serve/Shutdown.antt =====
-- How the threads of `run_serve_single` of src/main.rs come to their end.
use rtltcp.Prelude.{
  if_keeps, ℕ, suc, ◌+◌, ◌-◌, ◌≤◌, ◌≡◌, refl, ap, true, false, List, [], ◌∷◌, ◌++◌, arith,
}
use rtltcp.Io.{ok}
use rtltcp.Control.Whitelist.{Addresses}
use rtltcp.Args.{Args}
use rtltcp.Server.{Controller}
use rtltcp.Serve.{
  Outside, CancelThread, waiting, stopping, finished, Event, round, samples, end_of_reading, signal,
  cancelling, Running, accepts, try_send, step, run, begin, serve_single,
}
use rtltcp.Serve.Cancel.{
  step-told, rank, rank_bound, told, Watched, Ending, Same, round-Same, samples-Same, Same-Ending,
  Same-Watched, Ending-Watched, end_of_reading-Watched, signal-Ending, signal-Watched,
  cancelling-Watched, cancelling-Ending,
}
use rtltcp.Serve.Ran.{Ran, serve_single-Ran}

-- The steps of the cancel thread.
abbrev pub cancellings : List Event → ℕ
cancellings [] = 0
cancellings (cancelling ∷ es) = suc (cancellings es)
cancellings (round now ∷ es) = cancellings es
cancellings (samples bytes ∷ es) = cancellings es
cancellings (end_of_reading ∷ es) = cancellings es
cancellings (signal ∷ es) = cancellings es

module _ (device : Controller) where
  step-Watched :
      (e : Event) (s : Running device) → Watched device s → Watched device (step device e s)
  step-Watched (round now) s h = Same-Watched device s _ (round-Same device now s) h
  step-Watched (samples bytes) s h = Same-Watched device s _ (samples-Same device bytes s) h
  step-Watched end_of_reading s h =
      Ending-Watched device (step device end_of_reading s) (end_of_reading-Watched device s h)
  step-Watched signal s h = signal-Watched device s h
  step-Watched cancelling s h = cancelling-Watched device s h

  run-Watched :
      (es : List Event) (s : Running device) → Watched device s → Watched device (run device es s)
  unfolding run
  run-Watched [] s h = h
  run-Watched (e ∷ es) s h = run-Watched es (step device e s) (step-Watched e s h)

  Same-rank :
      (s t : Running device)
      → Same device s t
      → Ending device s
      → Ending device t × (rank t.cancel ≡ rank s.cancel)
  Same-rank s t e h = (Same-Ending device s t e h, ap rank e.same_cancel)

  try_send-rank : (s : Running device) → rank (try_send device s).cancel ≡ rank s.cancel
  try_send-rank s =
      if_keeps (λ t. rank t.cancel ≡ rank s.cancel) (accepts device s) (record s { pending = true })
        s (λ h. refl) (λ h. refl)

  end_of_reading-rank :
      (s : Running device) → rank (step device end_of_reading s).cancel ≡ rank s.cancel
  unfolding step
  end_of_reading-rank s =
      if_keeps (λ t. rank t.cancel ≡ rank s.cancel) s.reading
        (try_send device (record s { reading = false })) s
        (λ h. try_send-rank (record s { reading = false })) (λ h. refl)

  signal-rank : (s : Running device) → rank (step device signal s).cancel ≡ rank s.cancel
  unfolding step
  signal-rank s =
      if_keeps (λ t. rank t.cancel ≡ rank s.cancel) (accepts device s)
        (record (try_send device s) { shut_down = true })
        (record s { should_exit = true; shut_down = true }) (λ h. try_send-rank s) (λ h. refl)

  step-Ending :
      (e : Event) (s : Running device)
      → Ending device s
      → Ending device (step device e s)
        × (rank (step device e s).cancel ≤ rank s.cancel - cancellings (e ∷ []))
  step-Ending (round now) s h =
      let (k, same) = Same-rank s _ (round-Same device now s) h in (k, omega (arith, same))
  step-Ending (samples bytes) s h =
      let (k, same) = Same-rank s _ (samples-Same device bytes s) h in (k, omega (arith, same))
  step-Ending end_of_reading s h = (
    end_of_reading-Watched device s (Ending-Watched device s h),
    omega (arith, end_of_reading-rank s),
  )
  step-Ending signal s h = (signal-Ending device s h, omega (arith, signal-rank s))
  step-Ending cancelling s h =
      let (k, fewer) = cancelling-Ending device s h in (k, omega (arith, fewer))

  cancellings_cons :
      (e : Event) (es : List Event) → cancellings (e ∷ es) ≡ cancellings (e ∷ []) + cancellings es
  cancellings_cons (round now) es = omega arith
  cancellings_cons (samples bytes) es = omega arith
  cancellings_cons end_of_reading es = omega arith
  cancellings_cons signal es = omega arith
  cancellings_cons cancelling es = omega arith

  -- Once it is asked device for, the end comes with the steps of the cancel thread.
  run-Ending :
      (es : List Event) (s : Running device)
      → Ending device s
      → Ending device (run device es s)
        × (rank (run device es s).cancel ≤ rank s.cancel - cancellings es)
  unfolding run
  run-Ending [] s h = (h, omega arith)
  run-Ending (e ∷ es) s h =
      let (k, fewer) = step-Ending e s h in
      let (l, bound) = run-Ending es (step device e s) k in
      (l, omega (arith, fewer, bound, cancellings_cons e es))

  over :
      (s : Running device)
      → Ending device s
      → rank s.cancel ≤ 0
      → (s.should_exit ≡ true) × (s.cancel ≡ finished)
  over s (a, b) h = go s.cancel refl
    where
      go : (c : CancelThread) → s.cancel ≡ c → (s.should_exit ≡ true) × (s.cancel ≡ finished)
      go waiting e = absurd (omega (arith, ap rank e))
      go stopping e = absurd (omega (arith, ap rank e))
      go finished e = (rw e at b, e)

  run-told :
      (es : List Event) (s : Running device)
      → told device s ≡ true
      → told device (run device es s) ≡ true
  unfolding run
  run-told [] s h = h
  run-told (e ∷ es) s h = run-told es (step device e s) (step-told device e s h)

  run-append :
      (es fs : List Event) (s : Running device)
      → run device (es ++ fs) s ≡ run device fs (run device es s)
  unfolding run
  run-append [] fs s = refl
  run-append (e ∷ es) fs s = run-append es fs (step device e s)

  -- The end, from any state that is watched.
  run_over :
      (es fs : List Event) (s : Running device)
      → Watched device s
      → 2 ≤ cancellings fs
      → let t = run device (es ++ (end_of_reading ∷ fs)) s in
        (t.should_exit ≡ true) × (t.cancel ≡ finished)
  run_over es fs s h enough =
      let t : Running device = run device es s in
      let ended : Ending device (step device end_of_reading t) =
        end_of_reading-Watched device t (run-Watched es s h) in
      let (l, bound) = run-Ending fs (step device end_of_reading t) ended in
      rw (run-append es (end_of_reading ∷ fs) s) (
        unfold run in
        over (run device fs (step device end_of_reading t)) l
          (omega (arith, bound, rank_bound (step device end_of_reading t).cancel)))

  module _ (net : Addresses) (magic : List ℕ) (o : Outside device.Handle) where
    -- In a session of the single-client mode that got past the magic packet, whatever the order of
    -- the steps and whatever fails: once `read_async` has returned, two steps of the cancel thread,
    -- among any others, are enough for the exit flag to be up and the cancel thread to have ended.
    pub serve_single_stops :
        (args : Args) (started started_later : ℕ) (early late after : List Event)
        (s : Running device)
        → serve_single device net magic o args started started_later early
            (late ++ (end_of_reading ∷ after))
          ≡ ok s
        → 2 ≤ cancellings after
        → (s.should_exit ≡ true) × (s.cancel ≡ finished)
    serve_single_stops args started started_later early late after s h enough =
        let r : Ran device net magic o args started started_later early
            (late ++ (end_of_reading ∷ after)) s =
          serve_single-Ran device net magic o args started started_later early
            (late ++ (end_of_reading ∷ after)) s h in
        rw r.ran (
          run_over late after _
            (
              refl,
              run-told early
                  (begin device net magic o args started started_later r.client.0 r.client.1) refl,
            )
            enough)
