-- ===== src/Prelude/Fair.antt =====
-- Progress of a machine whose steps a scheduler chooses: a measure never grows, and a step that
-- helps goes on to help until the measure falls.
use rtltcp.Prelude.{
  ℕ, ◌-◌, ◌≤◌, ◌<◌, ◌≡◌, refl, ◌∙◌, ◌⊎◌, inl, inr, Bool, true, false, List, [], ◌∷◌, ◌++◌, concat,
  length, All, arith,
}

module _ {ℓ κ} {E : Type ℓ} {S : Type κ} (step : E → S → S) where
  unfoldable pub run_steps : List E → S → S
  run_steps [] s = s
  run_steps (e ∷ es) s = run_steps es (step e s)

  pub run_steps-append :
      (es fs : List E) (s : S) → run_steps (es ++ fs) s ≡ run_steps fs (run_steps es s)
  unfolding run_steps
  run_steps-append [] fs s = refl
  run_steps-append (e ∷ es) fs s = run_steps-append es fs (step e s)

  pub run_steps_keeps {μ} :
      (P : S → Type μ)
      → ((e : E) (s : S) → P s → P (step e s))
      → (es : List E) (s : S) → P s
      → P (run_steps es s)
  unfolding run_steps
  run_steps_keeps P keeps [] s p = p
  run_steps_keeps P keeps (e ∷ es) s p = run_steps_keeps P keeps es (step e s) (keeps e s p)

-- One of the steps helps.
abbrev pub SomeHelps {ℓ κ} : {E : Type ℓ} {S : Type κ} → (E → S → Bool) → S → List E → Type 0
SomeHelps helps s [] = ⊥
SomeHelps helps s (e ∷ es) = (helps e s ≡ true) ⊎ SomeHelps helps s es

module _ {ℓ κ μ ν} {E : Type ℓ} {S : Type κ} (step : E → S → S) (Inv : S → Type μ) (measure : S → ℕ)
    (helps : E → S → Bool) (Fair : List E → Type ν)
    (keeps : (e : E) (s : S) → Inv s → Inv (step e s))
    (falls : (e : E) (s : S)
      → Inv s
      → (measure (step e s) < measure s)
        ⊎ ((measure (step e s) ≡ measure s)
            × (helps e s ≡ false)
            × ((f : E) → helps f (step e s) ≡ helps f s)))
    (enough : (s : S) (es : List E)
      → Inv s
      → Fair es
      → (measure s ≡ 0) ⊎ SomeHelps helps s es) where
  same_helps :
      (s t : S) (es : List E)
      → ((f : E) → helps f t ≡ helps f s)
      → SomeHelps helps s es
      → SomeHelps helps t es
  same_helps s t [] same h = h
  same_helps s t (e ∷ es) same (inl h) = inl (same e ∙ h)
  same_helps s t (e ∷ es) same (inr h) = inr (same_helps s t es same h)

  never_grows : (es : List E) (s : S) → Inv s → measure (run_steps step es s) ≤ measure s
  unfolding run_steps
  never_grows [] s i = omega arith
  never_grows (e ∷ es) s i = elim (falls e s i) [
    | inl h ↦ omega (arith, never_grows es (step e s) (keeps e s i))
    | inr h ↦ omega (arith, h.0, never_grows es (step e s) (keeps e s i))
  ]

  round_falls :
      (es : List E) (s : S)
      → Inv s
      → SomeHelps helps s es
      → measure (run_steps step es s) < measure s
  unfolding run_steps
  round_falls [] s i h = absurd h
  round_falls (e ∷ es) s i h = go (falls e s i) h (round_falls es (step e s) (keeps e s i))
    where
      after : measure (run_steps step es (step e s)) ≤ measure (step e s)
      after = never_grows es (step e s) (keeps e s i)

      go :
          (measure (step e s) < measure s)
            ⊎ ((measure (step e s) ≡ measure s)
                × (helps e s ≡ false)
                × ((f : E) → helps f (step e s) ≡ helps f s))
          → (helps e s ≡ true) ⊎ SomeHelps helps s es
          → (SomeHelps helps (step e s) es
              → measure (run_steps step es (step e s)) < measure (step e s))
          → measure (run_steps step es (step e s)) < measure s
      go (inl lt) k ih = omega (arith, after)
      go (inr (eq, no_help, same)) (inl k) ih = cc
      go (inr (eq, no_help, same)) (inr k) ih =
          let rest : measure (run_steps step es (step e s)) < measure (step e s) =
            ih (same_helps s (step e s) es same k) in
          omega (arith, eq)

  -- A fair round for each unit of the measure brings it to zero.
  pub falls_by_rounds :
      (rounds : List (List E)) (s : S)
      → Inv s
      → All Fair rounds
      → measure (run_steps step (concat rounds) s) ≤ measure s - length rounds
  unfolding run_steps
  falls_by_rounds [] s i fair = omega arith
  falls_by_rounds (es ∷ rounds) s i (fair, more) =
      let t : S = run_steps step es s in
      let later = falls_by_rounds rounds t (run_steps_keeps step Inv keeps es s i) more in
      rw (run_steps-append step es (concat rounds) s) (elim (enough s es i fair) [
        | inl over ↦ omega (arith, over, later, never_grows es s i)
        | inr help ↦ omega (arith, later, round_falls es s i help)
      ])
