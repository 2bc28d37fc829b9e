-- ===== src/ProxyMulti/Stops.antt =====
-- That `run_proxy_multi` of src/main.rs returns after a signal.
use rtltcp.Prelude.{
  ℕ, ◌+◌, ◌≤◌, ◌≡◌, refl, ap, ◌⊎◌, inl, inr, Bool, true, false, List, [], ◌∷◌, ◌++◌, concat, length,
  All, arith,
}
use rtltcp.Prelude.Fair.{run_steps, run_steps-append, SomeHelps, falls_by_rounds}
use rtltcp.Io.{Result, ok}
use rtltcp.Error.{RtlTcpError}
use rtltcp.Control.Whitelist.{Addresses}
use rtltcp.Args.{Args}
use rtltcp.Encryption.{StreamCipher}
use rtltcp.Serve.Ran.{IfOk, IfOk-ok, IfOk-and_then}
use rtltcp.ProxyMulti.{
  Outside, MainThread, accepting, joining, returned, Event, proceed, slave, reading, signal,
  Running, step, begin, open_proxy, proxy_multi,
}
use rtltcp.ProxyMulti.Progress.{main_rank, read_rank, ready, Progress, step-Progress}
use rtltcp.ProxyMulti.Progress as P

-- A round in which both threads have a turn.
abbrev pub Proceeds : List Event → Type 0
Proceeds [] = ⊥
Proceeds (proceed v ∷ es) = Unit {0}
Proceeds (slave r ∷ es) = Proceeds es
Proceeds (reading a ∷ es) = Proceeds es
Proceeds (signal ∷ es) = Proceeds es

abbrev pub Reads : List Event → Type 0
Reads [] = ⊥
Reads (reading a ∷ es) = Unit {0}
Reads (proceed v ∷ es) = Reads es
Reads (slave r ∷ es) = Reads es
Reads (signal ∷ es) = Reads es

abbrev pub Fair : List Event → Type 0
Fair es = Proceeds es × Reads es

module _ (cipher : StreamCipher) (net : Addresses) (args : Args) where
  abbrev State : Type 0
  State = Running cipher net args

  abbrev next : Event → State → State
  next e s = step cipher net args e s

  abbrev Ending : State → Type 0
  Ending s = P.Ending cipher net args s

  abbrev measure : State → ℕ
  measure s = P.measure cipher net args s

  abbrev helps : Event → State → Bool
  helps e s = P.helps cipher net args e s

  progress : (e : Event) (s : State) → Ending s → Progress cipher net args e s (next e s)
  progress e s i = step-Progress cipher net args e s i

  proceed-helps :
      (s : State) (es : List Event)
      → ready s.main_thread s.relaying ≡ true
      → Proceeds es
      → SomeHelps helps s es
  proceed-helps s [] h p = absurd p
  proceed-helps s (proceed v ∷ es) h p = inl h
  proceed-helps s (slave r ∷ es) h p = inr (proceed-helps s es h p)
  proceed-helps s (reading a ∷ es) h p = inr (proceed-helps s es h p)
  proceed-helps s (signal ∷ es) h p = inr (proceed-helps s es h p)

  reading-helps :
      (s : State) (es : List Event) → s.relaying ≡ true → Reads es → SomeHelps helps s es
  reading-helps s [] h p = absurd p
  reading-helps s (reading a ∷ es) h p = inl h
  reading-helps s (slave r ∷ es) h p = inr (reading-helps s es h p)
  reading-helps s (proceed v ∷ es) h p = inr (reading-helps s es h p)
  reading-helps s (signal ∷ es) h p = inr (reading-helps s es h p)

  turn :
      (m : MainThread) (b : Bool)
      → (main_rank m + read_rank b ≡ 0) ⊎ (ready m b ≡ true) ⊎ (b ≡ true)
  turn m true = inr (inr refl)
  turn accepting false = inr (inl refl)
  turn joining false = inr (inl refl)
  turn (returned r) false = inl refl

  enough :
      (s : State) (es : List Event) → Ending s → Fair es → (measure s ≡ 0) ⊎ SomeHelps helps s es
  enough s es i (p, r) = elim (turn s.main_thread s.relaying) [
    | inl over ↦ inl over
    | inr (inl h) ↦ inr (proceed-helps s es h p)
    | inr (inr h) ↦ inr (reading-helps s es h r)
  ]

  ranks : (m : MainThread) (b : Bool) → main_rank m + read_rank b ≤ 3
  ranks accepting true = omega arith
  ranks accepting false = omega arith
  ranks joining true = omega arith
  ranks joining false = omega arith
  ranks (returned r) true = omega arith
  ranks (returned r) false = omega arith

  abbrev HasReturned : State → Type 0
  HasReturned s =
      ((r : Result RtlTcpError (Unit {0})) × (s.main_thread ≡ returned r)) × (s.relaying ≡ false)

  over-HasReturned : (s : State) → measure s ≤ 0 → HasReturned s
  over-HasReturned s h = (go s.main_thread refl, ended s.relaying refl)
    where
      go :
          (m : MainThread)
          → s.main_thread ≡ m
          → (r : Result RtlTcpError (Unit {0})) × (s.main_thread ≡ returned r)
      go accepting e = absurd (omega (arith, ap main_rank e, h))
      go joining e = absurd (omega (arith, ap main_rank e, h))
      go (returned r) e = (r, e)

      ended : (b : Bool) → s.relaying ≡ b → s.relaying ≡ false
      ended false e = e
      ended true e = absurd (omega (arith, ap read_rank e, h))

  run_ends :
      (before : List Event) (rounds : List (List Event)) (s : State)
      → All Fair rounds
      → 3 ≤ length rounds
      → HasReturned (run_steps next (before ++ (signal ∷ concat rounds)) s)
  run_ends before rounds s fair long =
      let t : State = next signal (run_steps next before s) in
      let up : Ending t = unfold step in refl in
      let fallen =
        falls_by_rounds next Ending measure helps Fair (λ e s i. (progress e s i).ending)
          (λ e s i. (progress e s i).falls) enough rounds t up fair in
      rw (run_steps-append next before (signal ∷ concat rounds) s) (
        unfold run_steps in
        over-HasReturned (run_steps next (concat rounds) t)
          (omega (arith, fallen, ranks t.main_thread t.relaying)))

  -- After a signal, whatever went before, whoever connects and whatever the upstream server does:
  -- three rounds in each of which the main thread and the thread that reads from upstream have a
  -- turn are enough for `run_proxy_multi` to have returned and for that thread to have ended. A turn
  -- of the main thread lasts as long as the master that it serves.
  pub proxy_multi_stops :
      (o : Outside) (before : List Event) (rounds : List (List Event)) (s : Running cipher net args)
      → proxy_multi cipher net args o (before ++ (signal ∷ concat rounds)) ≡ ok s
      → All Fair rounds
      → 3 ≤ length rounds
      → ((r : Result RtlTcpError (Unit {0})) × (s.main_thread ≡ returned r)) × (s.relaying ≡ false)
  unfolding proxy_multi
  proxy_multi_stops o before rounds s h fair long =
      let all : IfOk HasReturned
          (proxy_multi cipher net args o (before ++ (signal ∷ concat rounds))) =
        IfOk-and_then HasReturned (open_proxy cipher net args o) _ (λ u e.
          IfOk-ok HasReturned _ (run_ends before rounds (begin cipher net args u) fair long)) in
      all.value s h
