-- ===== src/Prelude/Loop.antt =====
-- `loop { ... }` with `continue` and `break`, on fuel. The body is given the number of its round.
use Prim.Native.Nat.{ℕ, zero, suc, ◌<◌}
use mathlib.Core.Path.{◌≡◌, refl}
use mathlib.Core.Option
use mathlib.Core.Option.{Option, none, some}
use native.Mathlib.Omega.{arith}

pub data Flow {ℓ} (S : Type ℓ) : Type ℓ where
  again : S → Flow S
  break : S → Flow S

abbrev pub state {ℓ} : {S : Type ℓ} → Flow S → S
state (again s) = s
state (break s) = s

module _ {ℓ} {S : Type ℓ} (body : ℕ → S → Flow S) where
  -- `none` means that the fuel ran out.
  unfoldable pub loop : ℕ → ℕ → S → Option S
  loop zero i s = none
  loop (suc fuel) i s = elim (body i s) [ again s' ↦ loop fuel (suc i) s' | break s' ↦ some s' ]

  pub loop_again :
      (fuel i : ℕ) {s t : S} → body i s ≡ again t → loop (suc fuel) i s ≡ loop fuel (suc i) t
  unfolding loop
  loop_again fuel i e = rw (e, loop)

  pub loop_break : (fuel i : ℕ) {s t : S} → body i s ≡ break t → loop (suc fuel) i s ≡ some t
  unfolding loop
  loop_break fuel i e = rw (e, loop)

-- A loop that starts a round later.
pub loop-suc {ℓ} :
    {S : Type ℓ} (body : ℕ → S → Flow S) (fuel i : ℕ) (s : S)
    → loop body fuel (suc i) s ≡ loop (λ j. body (suc j)) fuel i s
unfolding loop
loop-suc body zero i s = refl
loop-suc {S} body (suc fuel) i s = go (body (suc i) s) (λ t. loop-suc body fuel (suc i) t)
  where
    go :
        (o : Flow S)
        → ((t : S) → loop body fuel (suc (suc i)) t ≡ loop (λ j. body (suc j)) fuel (suc i) t)
        → elim o as (λ x. Option S) [ again t ↦ loop body fuel (suc (suc i)) t | break t ↦ some t ]
          ≡ elim o as (λ x. Option S) [
            | again t ↦ loop (λ j. body (suc j)) fuel (suc i) t
            | break t ↦ some t
          ]
    go (again t) ih = ih t
    go (break t) ih = refl

-- A loop whose rounds, but for the last, make a measure fall ends, and keeps what every round keeps.
module _ {ℓ κ} {S : Type ℓ} (body : ℕ → S → Flow S) (P : S → Type κ) (measure : S → ℕ)
    (falls : (i : ℕ) (s t : S) → body i s ≡ again t → measure t < measure s)
    (keeps : (i : ℕ) (s : S) → P s → P (state (body i s))) where
  pub loop_total :
      (fuel i : ℕ) (s : S) → measure s < fuel → P s → (t : S) × (loop body fuel i s ≡ some t) × P t
  unfolding loop
  loop_total zero i s h p = absurd (omega arith)
  loop_total (suc fuel) i s h p =
      go (body i s) refl (keeps i s p) (λ t lt q. loop_total fuel (suc i) t lt q)
    where
      go :
          (f : Flow S)
          → body i s ≡ f
          → P (state f)
          → ((t : S) → measure t < fuel → P t → (u : S) × (loop body fuel (suc i) t ≡ some u) × P u)
          → (t : S) × (loop body (suc fuel) i s ≡ some t) × P t
      go (break t) e q ih = (t, rw (e, loop), q)
      go (again t) e q ih =
          let (u, r, w) = ih t (omega (arith, falls i s t e)) q in (u, rw (e, loop) r, w)

abbrev pub map_flow {ℓ κ} : {S : Type ℓ} {T : Type κ} → (S → T) → Flow S → Flow T
map_flow f (again s) = again (f s)
map_flow f (break s) = break (f s)

-- Two loops whose rounds agree along a function have results that agree.
module _ {ℓ κ} {S : Type ℓ} {T : Type κ} (f : S → T) (body : ℕ → S → Flow S)
    (body' : ℕ → T → Flow T) (agree : (i : ℕ) (s : S) → body' i (f s) ≡ map_flow f (body i s)) where
  pub loop-map : (fuel i : ℕ) (s : S) → loop body' fuel i (f s) ≡ Option.map f (loop body fuel i s)
  unfolding loop
  loop-map zero i s = refl
  loop-map (suc fuel) i s = rw (loop, agree i s) (go (body i s) (λ t. loop-map fuel (suc i) t))
    where
      go :
          (o : Flow S)
          → ((t : S) → loop body' fuel (suc i) (f t) ≡ Option.map f (loop body fuel (suc i) t))
          → elim (map_flow f o) as (λ x. Option T) [
            | again t ↦ loop body' fuel (suc i) t
            | break t ↦ some t
          ]
            ≡ Option.map f (elim o as (λ x. Option S) [
              | again t ↦ loop body fuel (suc i) t
              | break t ↦ some t
            ])
      go (again t) ih = ih t
      go (break t) ih = refl
