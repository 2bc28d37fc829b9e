-- ===== src/Control/RateLimiter/Spacing.antt =====
-- What the rate limiter of src/control.rs promises over a sequence of commands.
use rtltcp.Prelude.{
  ℕ, ◌+◌, ◌-◌, ◌*◌, ◌≤◌, ◌<◌, ◌≡◌, refl, true, List, [], ◌∷◌, length, arith, Bool-cases, inl, inr,
  leb, if◌then◌else◌,
}
use rtltcp.Control.RateLimiter.{RateLimiter, new, check}

-- The instants, of those at which a command came, at which it was let through.
unfoldable pub accepted : RateLimiter → List ℕ → List ℕ
accepted r [] = []
accepted r (now ∷ times) =
    let (r', passed) = check now r in
    let rest = accepted r' times in if passed then now ∷ rest else rest

-- Each instant of the list is at least `d` after the one before it, the first after `t`.
abbrev pub Spaced : ℕ → ℕ → List ℕ → Type 0
Spaced d t [] = Unit {0}
Spaced d t (now ∷ times) = (t + d ≤ now) × Spaced d now times

abbrev pub last_of : ℕ → List ℕ → ℕ
last_of t [] = t
last_of t (now ∷ times) = last_of now times

-- For an interval above 0, two commands that the limiter lets through one after the other are at
-- least the interval apart, and the first is that much behind the last before, whatever the clock
-- shows in between.
pub accepted-Spaced :
    (r : RateLimiter) (times : List ℕ)
    → 0 < r.min_interval
    → Spaced r.min_interval r.last_command (accepted r times)
unfolding accepted check
accepted-Spaced r [] h = tt
accepted-Spaced r (now ∷ times) h = elim (Bool-cases (leb r.min_interval (now - r.last_command))) [
  | inl pass ↦ rw pass (ground arith, accepted-Spaced (record r { last_command = now }) times h)
  | inr stop ↦ rw stop (accepted-Spaced r times h)
]

-- So `n` accepted commands take at least `n` intervals.
pub length-Spaced :
    (d t : ℕ) (times : List ℕ) → Spaced d t times → t + length times * d ≤ last_of t times
length-Spaced d t [] s = omega arith
length-Spaced d t (now ∷ times) s = grind (arith, length-Spaced d now times s.1)

-- From the time of the last command before, the commands that the limiter lets through take at least
-- one interval each, for an interval above 0.
pub accepted_count :
    (r : RateLimiter) (times : List ℕ)
    → 0 < r.min_interval
    → r.last_command + length (accepted r times) * r.min_interval
      ≤ last_of r.last_command (accepted r times)
accepted_count r times h =
    length-Spaced r.min_interval r.last_command (accepted r times) (accepted-Spaced r times h)

-- Commands that are an interval apart are all let through.
pub accepted_all :
    (r : RateLimiter) (times : List ℕ)
    → Spaced r.min_interval r.last_command times
    → accepted r times ≡ times
unfolding accepted check
accepted_all r [] s = refl
accepted_all r (now ∷ times) s =
    ground (arith, accepted_all (record r { last_command = now }) times s.1)

-- The first command after the limiter was made is let through, unless the clock has run for less
-- than the interval since its origin; then the limiter waits for a whole interval.
pub new_first :
    (d start later now : ℕ)
    → start ≤ later
    → later ≤ now
    → ((check now (new d start later)).1 ≡ (if leb d start then true else leb d (now - later)))
unfolding check new
new_first d start later now h k = ground arith
