-- ===== src/Io.antt =====
-- What the program uses of `std::io`: error kinds, results, actions on a stream, readers and
-- writers. The operating system's answers are part of a stream's state: what arrives, and which
-- writes fail.
pub mod Read
pub mod Write
pub mod Duplex
pub mod BufWriter
use rtltcp.Prelude.{◌≡◌, Bool, true, false}

-- The kinds that the program tells apart; `other` stands for the rest.
pub data ErrorKind : Type 0 where
  would_block timed_out unexpected_eof connection_reset broken_pipe : ErrorKind
  connection_aborted not_connected invalid_data invalid_input other : ErrorKind

pub data Result {ℓ κ} (E : Type ℓ) (A : Type κ) : Type (ℓ ⊔ κ) where
  ok : A → Result E A
  err : E → Result E A

abbrev pub is_ok {ℓ κ} : {E : Type ℓ} {A : Type κ} → Result E A → Bool
is_ok (ok a) = true
is_ok (err e) = false

abbrev pub map_err {ℓ κ μ} :
    {E : Type ℓ} {F : Type κ} {A : Type μ} → (E → F) → Result E A → Result F A
map_err f (ok a) = ok a
map_err f (err e) = err (f e)

-- An action ends in a value or an error, and in a new state either way.
pub data Outcome {ℓ κ μ} (S : Type ℓ) (E : Type κ) (A : Type μ) : Type (ℓ ⊔ κ ⊔ μ) where
  done : A → S → Outcome S E A
  failed : E → S → Outcome S E A

abbrev pub Action {ℓ κ μ} : Type ℓ → Type κ → Type μ → Type (ℓ ⊔ κ ⊔ μ)
Action S E A = S → Outcome S E A

infixl 5 ◌>>=◌ ◌>>◌
abbrev pub ◌>>=◌ {ℓ κ μ ν} :
    {S : Type ℓ} {E : Type κ} {A : Type μ} {B : Type ν}
    → Action S E A
    → (A → Action S E B)
    → Action S E B
◌>>=◌ m f s = elim (m s) [ done a s' ↦ f a s' | failed e s' ↦ failed e s' ]

abbrev pub ◌>>◌ {ℓ κ μ ν} :
    {S : Type ℓ} {E : Type κ} {A : Type μ} {B : Type ν} → Action S E A → Action S E B → Action S E B
◌>>◌ m k s = elim (m s) [ done a s' ↦ k s' | failed e s' ↦ failed e s' ]

abbrev pub return {ℓ κ μ} : {S : Type ℓ} {E : Type κ} {A : Type μ} → A → Action S E A
return a s = done a s

abbrev pub throw {ℓ κ μ} : {S : Type ℓ} {E : Type κ} {A : Type μ} → E → Action S E A
throw e s = failed e s

-- `?` on an error of another type.
abbrev pub convert {ℓ κ μ ν} :
    {S : Type ℓ} {E : Type κ} {F : Type μ} {A : Type ν} → (E → F) → Action S E A → Action S F A
convert f m s = elim (m s) [ done a s' ↦ done a s' | failed e s' ↦ failed (f e) s' ]

-- What follows an error of the system that ends the program.
abbrev pub or_exit {ℓ κ} :
    {A : Type ℓ} {B : Type κ} → Result ErrorKind A → (A → Result ErrorKind B) → Result ErrorKind B
or_exit (ok a) f = f a
or_exit (err e) f = err e

-- An action whose state is kept, or dropped with the error.
abbrev pub settled {ℓ κ} :
    {S : Type ℓ} {A : Type κ} → Outcome S ErrorKind A → Result ErrorKind (A × S)
settled (done a s) = ok (a, s)
settled (failed e s) = err e

-- A bind whose first action is known to succeed, or to fail.
module _ {ℓ κ μ ν} {S : Type ℓ} {E : Type κ} {A : Type μ} {B : Type ν} where
  pub >>=-done :
      (m : Action S E A) (f : A → Action S E B) {s s' : S} {a : A}
      → m s ≡ done a s'
      → (m >>= f) s ≡ f a s'
  >>=-done m f e = rw (e, ◌>>=◌)

  pub >>=-failed :
      (m : Action S E A) (f : A → Action S E B) {s s' : S} {e : E}
      → m s ≡ failed e s'
      → (m >>= f) s ≡ failed e s'
  >>=-failed m f h = rw (h, ◌>>=◌)

  pub >>-done :
      (m : Action S E A) (k : Action S E B) {s s' : S} {a : A} → m s ≡ done a s' → (m >> k) s ≡ k s'
  >>-done m k e = rw (e, ◌>>◌)

  pub >>-failed :
      (m : Action S E A) (k : Action S E B) {s s' : S} {e : E}
      → m s ≡ failed e s'
      → (m >> k) s ≡ failed e s'
  >>-failed m k h = rw (h, ◌>>◌)

module _ {ℓ κ μ ν} {S : Type ℓ} {E : Type κ} {F : Type μ} {A : Type ν} (f : E → F) where
  pub convert-done :
      (m : Action S E A) {s s' : S} {a : A} → m s ≡ done a s' → convert f m s ≡ done a s'
  convert-done m h = rw (h, convert)

  pub convert-failed :
      (m : Action S E A) {s s' : S} {e : E} → m s ≡ failed e s' → convert f m s ≡ failed (f e) s'
  convert-failed m h = rw (h, convert)
