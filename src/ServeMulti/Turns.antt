-- ===== src/ServeMulti/Turns.antt =====
-- Rounds in which the threads of `run_serve_multi` of src/main.rs that end it have their turns.
use rtltcp.Prelude.{
  ℕ, ◌+◌, ◌≤◌, ◌≡◌, refl, ap, ◌⊎◌, inl, inr, Bool, true, false, not, List, [], ◌∷◌, concat, length,
  All, Option, arith,
}
use rtltcp.Prelude.Fair.{run_steps, SomeHelps, falls_by_rounds}
use rtltcp.Control.Whitelist.{Addresses}
use rtltcp.Args.{Args}
use rtltcp.Encryption.{StreamCipher}
use rtltcp.Server.{Controller}
use rtltcp.Serve.{CancelThread, waiting, stopping, finished, is_finished}
use rtltcp.Serve.Cancel.{rank, rank_bound}
use rtltcp.ServeMulti.{
  MainThread, accepting, joining_cancel, joining_read, returned, Event, proceed, slave, signal,
  cancelling, end_of_reading, Running, step,
}
use rtltcp.ServeMulti.Progress.{main_rank, ready, Progress, step-Progress}
use rtltcp.ServeMulti.Progress as P

-- A round in which both threads have a turn.
abbrev pub Proceeds : List Event → Type 0
Proceeds [] = ⊥
Proceeds (proceed v ∷ es) = Unit {0}
Proceeds (slave r ∷ es) = Proceeds es
Proceeds (signal ∷ es) = Proceeds es
Proceeds (cancelling ∷ es) = Proceeds es
Proceeds (end_of_reading ∷ es) = Proceeds es

abbrev pub Cancels : List Event → Type 0
Cancels [] = ⊥
Cancels (cancelling ∷ es) = Unit {0}
Cancels (proceed v ∷ es) = Cancels es
Cancels (slave r ∷ es) = Cancels es
Cancels (signal ∷ es) = Cancels es
Cancels (end_of_reading ∷ es) = Cancels es

abbrev pub Fair : List Event → Type 0
Fair es = Proceeds es × Cancels es

module _ (device : Controller) (cipher : StreamCipher) (net : Addresses) (args : Args)
    (key : Option (List ℕ)) where
  abbrev State : Type 0
  State = Running device cipher net args

  abbrev next : Event → State → State
  next e s = step device cipher net args key e s

  abbrev Ending : State → Type 0
  Ending s = P.Ending device cipher net args key s

  abbrev measure : State → ℕ
  measure s = P.measure device cipher net args key s

  abbrev helps : Event → State → Bool
  helps e s = P.helps device cipher net args key e s

  progress : (e : Event) (s : State) → Ending s → Progress device cipher net args key e s (next e s)
  progress e s i = step-Progress device cipher net args key e s i

  proceed-helps :
      (s : State) (es : List Event)
      → ready s.main_thread s.cancel ≡ true
      → Proceeds es
      → SomeHelps helps s es
  proceed-helps s [] h p = absurd p
  proceed-helps s (proceed v ∷ es) h p = inl h
  proceed-helps s (slave r ∷ es) h p = inr (proceed-helps s es h p)
  proceed-helps s (signal ∷ es) h p = inr (proceed-helps s es h p)
  proceed-helps s (cancelling ∷ es) h p = inr (proceed-helps s es h p)
  proceed-helps s (end_of_reading ∷ es) h p = inr (proceed-helps s es h p)

  cancelling-helps :
      (s : State) (es : List Event)
      → is_finished s.cancel ≡ false
      → Cancels es
      → SomeHelps helps s es
  cancelling-helps s [] h p = absurd p
  cancelling-helps s (cancelling ∷ es) h p = inl (ap not h)
  cancelling-helps s (slave r ∷ es) h p = inr (cancelling-helps s es h p)
  cancelling-helps s (signal ∷ es) h p = inr (cancelling-helps s es h p)
  cancelling-helps s (proceed v ∷ es) h p = inr (cancelling-helps s es h p)
  cancelling-helps s (end_of_reading ∷ es) h p = inr (cancelling-helps s es h p)

  turn :
      (m : MainThread) (c : CancelThread)
      → (main_rank m + rank c ≡ 0) ⊎ (ready m c ≡ true) ⊎ (is_finished c ≡ false)
  turn m waiting = inr (inr refl)
  turn m stopping = inr (inr refl)
  turn accepting finished = inr (inl refl)
  turn joining_cancel finished = inr (inl refl)
  turn joining_read finished = inl refl
  turn (returned r) finished = inl refl

  enough :
      (s : State) (es : List Event) → Ending s → Fair es → (measure s ≡ 0) ⊎ SomeHelps helps s es
  enough s es i (p, c) = elim (turn s.main_thread s.cancel) [
    | inl over ↦ inl over
    | inr (inl h) ↦ inr (proceed-helps s es h p)
    | inr (inr h) ↦ inr (cancelling-helps s es h c)
  ]

  main_rank_bound : (m : MainThread) → main_rank m ≤ 2
  main_rank_bound accepting = omega arith
  main_rank_bound joining_cancel = omega arith
  main_rank_bound joining_read = omega arith
  main_rank_bound (returned r) = omega arith

  -- Four rounds are enough for the main thread to wait for nothing but the reading.
  pub rounds_end :
      (rounds : List (List Event)) (s : State)
      → Ending s
      → All Fair rounds
      → 4 ≤ length rounds
      → measure (run_steps next (concat rounds) s) ≡ 0
  rounds_end rounds s h fair long = omega (
    arith,
    main_rank_bound s.main_thread,
    rank_bound s.cancel,
    falls_by_rounds next Ending measure helps Fair (λ e s i. (progress e s i).ending)
        (λ e s i. (progress e s i).falls) enough rounds s h fair,
  )
