-- ===== src/ServeMulti/Progress.antt =====
-- Each step of `run_serve_multi` of src/main.rs, once the exit flag is up, brings the end nearer.
use rtltcp.Prelude.{
  ℕ, ◌+◌, ◌<◌, ◌≡◌, refl, sym, ap, ◌∙◌, ◌⊎◌, inl, inr, Bool, true, false, not, if_keeps, List,
  Option, arith,
}
use rtltcp.Control.{magic_packet}
use rtltcp.Control.Whitelist.{Addresses}
use rtltcp.Args.{Args}
use rtltcp.Encryption.{StreamCipher}
use rtltcp.Server.{Controller}
use rtltcp.Server.Masters.{Visit}
use rtltcp.Server.Masters.Flags.{master_round-stops}
use rtltcp.Serve.{CancelThread, waiting, stopping, finished, is_finished}
use rtltcp.Serve.Cancel.{rank}
use rtltcp.ServeMulti.{
  MainThread, accepting, joining_cancel, joining_read, returned, Event, proceed, slave, signal,
  cancelling, end_of_reading, Running, accepts, after_round, seen, on_proceed, on_cancel, step,
}
use rtltcp.ServeMulti.Quiet.{asked, try_send-asked, Quiet, step-Quiet}

-- The steps that are left to the main thread before it waits for the reading.
abbrev pub main_rank : MainThread → ℕ
main_rank accepting = 2
main_rank joining_cancel = 1
main_rank joining_read = 0
main_rank (returned r) = 0

-- A step of the main thread would change where it is; but for the end of the reading.
abbrev pub ready : MainThread → CancelThread → Bool
ready accepting c = true
ready joining_cancel c = is_finished c
ready joining_read c = false
ready (returned r) c = false

module _ (device : Controller) (cipher : StreamCipher) (net : Addresses) (args : Args)
    (key : Option (List ℕ)) where
  abbrev pub State : Type 0
  State = Running device cipher net args

  abbrev pub next : Event → State → State
  next e s = step device cipher net args key e s

  abbrev pub Ending : State → Type 0
  Ending s = (s.should_exit ≡ true) × (asked device cipher net args s ≡ true)

  abbrev pub measure : State → ℕ
  measure s = main_rank s.main_thread + rank s.cancel

  abbrev pub helps : Event → State → Bool
  helps (proceed v) s = ready s.main_thread s.cancel
  helps cancelling s = not (is_finished s.cancel)
  helps (slave r) s = false
  helps signal s = false
  helps end_of_reading s = false

  -- What a step does to an end that is under way.
  pub record Progress (e : Event) (s t : State) : Type 0 where
    pub ending : Ending t
    pub reading_kept : s.reading ≡ false → t.reading ≡ false
    pub falls :
        (measure t < measure s)
        ⊎ ((measure t ≡ measure s) × (helps e s ≡ false) × ((f : Event) → helps f t ≡ helps f s))

  same_helps :
      (s t : State)
      → ready t.main_thread t.cancel ≡ ready s.main_thread s.cancel
      → t.cancel ≡ s.cancel
      → (f : Event) → helps f t ≡ helps f s
  same_helps s t m c (proceed v) = m
  same_helps s t m c cancelling = ap (λ c. not (is_finished c)) c
  same_helps s t m c (slave r) = refl
  same_helps s t m c signal = refl
  same_helps s t m c end_of_reading = refl

  Quiet-Progress :
      (e : Event) (s t : State)
      → Quiet device cipher net args s t
      → Ending s
      → helps e s ≡ false
      → Progress e s t
  Quiet-Progress e s t q (up, a) h = record {
    ending = (q.exit_kept up, q.asked_kept a);
    reading_kept = q.reading_kept;
    falls = inr (
      cc (q.same_main, q.same_cancel),
      h,
      same_helps s t (cc (q.same_main, q.same_cancel)) q.same_cancel,
    );
  }

  proceed-Progress :
      (m : MainThread) (v : Visit) (s : State)
      → s.main_thread ≡ m
      → Ending s
      → Progress (proceed v) s (on_proceed device cipher net args key m v s)
  unfolding on_proceed after_round
  proceed-Progress accepting v s at (up, a) =
      let t : State = record s { main_thread = joining_cancel } in
      let sent = try_send-asked device cipher net args t in
      rw
        (master_round-stops device cipher net magic_packet key args.whitelist args.read_timeout
          args.write_timeout (seen device cipher net args key s v) s.masters up)
        (if_keeps (λ (u : State). asked device cipher net args u ≡ true → Progress (proceed v) s u)
          (accepts device cipher net args t) (record t { pending = true }) t
          (λ h b. record {
            ending = (up, b);
            reading_kept = λ k. k;
            falls = inl (omega (arith, ap main_rank at));
          })
          (λ h b. record {
            ending = (up, b);
            reading_kept = λ k. k;
            falls = inl (omega (arith, ap main_rank at));
          })
          sent)
  proceed-Progress joining_cancel v s at (up, a) =
      if_keeps (Progress (proceed v) s) (is_finished s.cancel)
        (record s { main_thread = joining_read }) s
        (λ h. record {
          ending = (up, a);
          reading_kept = λ k. k;
          falls = inl (omega (arith, ap main_rank at));
        })
        (λ h. record {
          ending = (up, a);
          reading_kept = λ k. k;
          falls = inr (refl, ap (λ m. ready m s.cancel) at ∙ h, λ f. refl);
        })
  proceed-Progress joining_read v s at (up, a) =
      if_keeps (Progress (proceed v) s) s.reading s _
        (λ h. record {
          ending = (up, a);
          reading_kept = λ k. k;
          falls = inr (refl, ap (λ m. ready m s.cancel) at, λ f. refl);
        })
        (λ h. record {
          ending = (up, a);
          reading_kept = λ k. k;
          falls = inr (
            ap (λ m. main_rank m + rank s.cancel) (sym at),
            ap (λ m. ready m s.cancel) at,
            same_helps s _ (ap (λ m. ready m s.cancel) (sym at)) refl,
          );
        })
  proceed-Progress (returned r) v s at (up, a) = record {
    ending = (up, a);
    reading_kept = λ k. k;
    falls = inr (refl, ap (λ m. ready m s.cancel) at, λ f. refl);
  }

  cancelling-Progress :
      (c : CancelThread) (s : State)
      → s.cancel ≡ c
      → Ending s
      → Progress cancelling s (on_cancel device cipher net args key c s)
  unfolding on_cancel
  cancelling-Progress waiting s at (up, a) =
      if_keeps (Progress cancelling s) s.pending (record s { pending = false; cancel = stopping }) s
        (λ p. record {
          ending = (up, refl);
          reading_kept = λ k. k;
          falls = inl (omega (arith, ap rank at));
        })
        (λ p. cc (rw (at, p) at a))
  cancelling-Progress stopping s at (up, a) = record {
    ending = (refl, refl);
    reading_kept = λ k. k;
    falls = inl (omega (arith, ap rank at));
  }
  cancelling-Progress finished s at (up, a) = record {
    ending = (up, a);
    reading_kept = λ k. k;
    falls = inr (refl, ap (λ c. not (is_finished c)) at, λ f. refl);
  }

  pub step-Progress : (e : Event) (s : State) → Ending s → Progress e s (next e s)
  step-Progress (proceed v) s h = unfold step in proceed-Progress s.main_thread v s refl h
  step-Progress cancelling s h = unfold step in cancelling-Progress s.cancel s refl h
  step-Progress (slave r) s h =
      Quiet-Progress (slave r) s _ (step-Quiet device cipher net args key (slave r) s tt) h refl
  step-Progress signal s h =
      Quiet-Progress signal s _ (step-Quiet device cipher net args key signal s tt) h refl
  step-Progress end_of_reading s h =
      Quiet-Progress end_of_reading s _ (step-Quiet device cipher net args key end_of_reading s tt)
        h refl
