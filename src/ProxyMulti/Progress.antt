-- ===== src/ProxyMulti/Progress.antt =====
-- Each step of `run_proxy_multi` of src/main.rs, once the exit flag is up, brings the end nearer.
use rtltcp.Prelude.{
  ℕ, ◌+◌, ◌<◌, ◌≡◌, refl, ap, ◌⊎◌, inl, inr, Bool, true, false, not, if_keeps, List, [], ◌∷◌, arith,
}
use rtltcp.Prelude.Loop.{Flow, again, break}
use rtltcp.Io.{ErrorKind, Result}
use rtltcp.Control.Whitelist.{Addresses}
use rtltcp.Args.{Args}
use rtltcp.Encryption.{StreamCipher}
use rtltcp.Acceptor as Slaves
use rtltcp.Server.Masters.{Visit}
use rtltcp.Proxy.Forward.{Relayed, relay}
use rtltcp.Proxy.Masters.Flags.{master_round-stops}
use rtltcp.ProxyMulti.{
  MainThread, accepting, joining, returned, Event, proceed, slave, reading, signal, Running,
  proxied, after_round, seen, on_proceed, after_slave, on_acceptor, on_slave, after_reading,
  on_reading, step,
}

-- The steps that are left.
abbrev pub main_rank : MainThread → ℕ
main_rank accepting = 2
main_rank joining = 1
main_rank (returned r) = 0

abbrev pub read_rank : Bool → ℕ
read_rank true = 1
read_rank false = 0

-- A step of the main thread would change where it is.
abbrev pub ready : MainThread → Bool → Bool
ready accepting relaying = true
ready joining relaying = not relaying
ready (returned r) relaying = false

-- With the flag up the reader thread ends.
relay-stops :
    (answer : Result ErrorKind (List ℕ)) (up : Bool) (r : Relayed)
    → up ≡ true
    → relay (record { should_exit = up; read = answer } ∷ []) r ≡ break r
unfolding relay
relay-stops answer up r h = rw h refl

module _ (cipher : StreamCipher) (net : Addresses) (args : Args) where
  abbrev pub State : Type 0
  State = Running cipher net args

  abbrev pub next : Event → State → State
  next e s = step cipher net args e s

  abbrev pub Ending : State → Type 0
  Ending s = s.should_exit ≡ true

  abbrev pub measure : State → ℕ
  measure s = main_rank s.main_thread + read_rank s.relaying

  abbrev pub helps : Event → State → Bool
  helps (proceed v) s = ready s.main_thread s.relaying
  helps (reading a) s = s.relaying
  helps (slave r) s = false
  helps signal s = false

  -- What a step does to an end that is under way.
  pub record Progress (e : Event) (s t : State) : Type 0 where
    pub ending : Ending t
    pub falls :
        (measure t < measure s)
        ⊎ ((measure t ≡ measure s) × (helps e s ≡ false) × ((f : Event) → helps f t ≡ helps f s))

  same_helps :
      (s t : State)
      → t.main_thread ≡ s.main_thread
      → t.relaying ≡ s.relaying
      → (f : Event) → helps f t ≡ helps f s
  same_helps s t m r (proceed v) = cc
  same_helps s t m r (reading a) = r
  same_helps s t m r (slave x) = refl
  same_helps s t m r signal = refl

  idle :
      (e : Event) (s t : State)
      → t.main_thread ≡ s.main_thread
      → t.relaying ≡ s.relaying
      → Ending t
      → helps e s ≡ false
      → Progress e s t
  idle e s t m r up h = record { ending = up; falls = inr (cc (m, r), h, same_helps s t m r) }

  proceed-Progress :
      (m : MainThread) (v : Visit) (s : State)
      → s.main_thread ≡ m
      → Ending s
      → Progress (proceed v) s (on_proceed cipher net args m v s)
  unfolding on_proceed after_round
  proceed-Progress accepting v s at up =
      rw
        (master_round-stops cipher net s.magic_packet args.whitelist args.read_timeout
          args.write_timeout (seen cipher net args s v) (proxied cipher net args s) up)
        (record { ending = refl; falls = inl (omega (arith, ap main_rank at)) })
  proceed-Progress joining v s at up =
      if_keeps (Progress (proceed v) s) s.relaying s _
        (λ h. idle (proceed v) s s refl refl up (cc (at, h)))
        (λ h. record { ending = up; falls = inl (omega (arith, ap main_rank at)) })
  proceed-Progress (returned r) v s at up =
      idle (proceed v) s s refl refl up (ap (λ m. ready m s.relaying) at)

  after_slave-Progress :
      (r : Slaves.Round) (s : State) (f : Flow Slaves.Acceptor)
      → Ending s
      → Progress (slave r) s (after_slave cipher net args (record s { looked = false }) f)
  unfolding after_slave
  after_slave-Progress r s (again a) up = idle (slave r) s _ refl refl up refl
  after_slave-Progress r s (break a) up = idle (slave r) s _ refl refl up refl

  on_acceptor-Progress :
      (b : Bool) (r : Slaves.Round) (s : State)
      → Ending s
      → Progress (slave r) s (on_acceptor cipher net args b r s)
  unfolding on_acceptor
  on_acceptor-Progress true r s up = after_slave-Progress r s _ up
  on_acceptor-Progress false r s up =
      if_keeps (Progress (slave r) s) s.should_exit (record s { acceptor_ended = true })
        (record s { looked = true }) (λ h. idle (slave r) s _ refl refl up refl)
        (λ h. idle (slave r) s _ refl refl up refl)

  reading-Progress :
      (answer : Result ErrorKind (List ℕ)) (s : State)
      → Ending s
      → Progress (reading answer) s (on_reading cipher net args answer s)
  unfolding on_reading after_reading
  reading-Progress answer s up =
      let f : Flow Relayed =
        relay (record { should_exit = s.should_exit; read = answer } ∷ []) s.relayed in
      let over : Flow Relayed → State = after_reading cipher net args s in
      if_keeps (Progress (reading answer) s) s.relaying (over f) s
        (λ h.
          rw (relay-stops answer s.should_exit s.relayed up)
            (record { ending = up; falls = inl (omega (arith, ap read_rank h)) }))
        (λ h. idle (reading answer) s s refl refl up h)

  pub step-Progress : (e : Event) (s : State) → Ending s → Progress e s (next e s)
  unfolding step on_slave
  step-Progress (proceed v) s up = proceed-Progress s.main_thread v s refl up
  step-Progress (slave r) s up =
      if_keeps (Progress (slave r) s) s.acceptor_ended s (on_acceptor cipher net args s.looked r s)
        (λ h. idle (slave r) s s refl refl up refl) (λ h. on_acceptor-Progress s.looked r s up)
  step-Progress (reading answer) s up = reading-Progress answer s up
  step-Progress signal s up = idle signal s _ refl refl refl refl
