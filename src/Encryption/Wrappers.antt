-- ===== src/Encryption/Wrappers.antt =====
-- `EncryptedWriter` and `EncryptedReader` of src/encryption.rs, with what the standard library
-- makes of them: `write_all` over `write`, and `read_to_end` over `read`.
use rtltcp.Prelude.{ℕ, zero, suc, List, [], ◌∷◌, ◌++◌, length, take, drop, ◌==◌, if◌then◌else◌}
use rtltcp.Io.{ErrorKind, other, Result, ok, err, Outcome, done, failed, Action}
use rtltcp.Encryption.{StreamCipher}

-- A stream under the writer: what it has taken, and what it answers to the coming calls of `write`,
-- a failure or the most bytes that it takes. After the list it takes all.
pub record Pipe : Type 0 where
  pub taken : List ℕ
  pub answers : List (Result ErrorKind ℕ)

pipe_write : List ℕ → List ℕ → List (Result ErrorKind ℕ) → Outcome Pipe ErrorKind ℕ
pipe_write buf taken [] = done (length buf) (record { taken = taken ++ buf; answers = [] })
pipe_write buf taken (ok n ∷ rest) =
    done (length (take n buf)) (record { taken = taken ++ take n buf; answers = rest })
pipe_write buf taken (err e ∷ rest) = failed e (record { taken = taken; answers = rest })

module _ (c : StreamCipher) where
  open c use {State, new, apply_keystream}

  pub record EncryptedWriter : Type 0 where
    pub inner : Pipe
    pub cipher : State

  unfoldable pub writer : Pipe → List ℕ → List ℕ → EncryptedWriter
  writer inner key nonce = record { inner = inner; cipher = new key nonce }

  with_cipher : State → Outcome Pipe ErrorKind ℕ → Outcome EncryptedWriter ErrorKind ℕ
  with_cipher k (done n p) = done n (record { inner = p; cipher = k })
  with_cipher k (failed e p) = failed e (record { inner = p; cipher = k })

  -- The whole buffer is encrypted, whatever part of it the inner stream then takes.
  unfoldable pub write : List ℕ → Action EncryptedWriter ErrorKind ℕ
  unfolding with_cipher pipe_write
  write buf w =
      with_cipher (apply_keystream w.cipher buf).1
        (pipe_write (apply_keystream w.cipher buf).0 w.inner.taken w.inner.answers)

  -- The standard `write_all`: it calls `write` with what is left. One call for each answer and one
  -- more are enough; `other` stands for `WriteZero`.
  unfoldable pub write_rounds : ℕ → List ℕ → Action EncryptedWriter ErrorKind (Unit {0})
  write_rounds fuel [] w = done tt w
  write_rounds zero (b ∷ bs) w = failed other w
  write_rounds (suc fuel) (b ∷ bs) w = elim (write (b ∷ bs) w) [
    | done n w' ↦ if n == 0 then failed other w' else write_rounds fuel (drop n (b ∷ bs)) w'
    | failed e w' ↦ failed e w'
  ]

  unfoldable pub write_all : List ℕ → Action EncryptedWriter ErrorKind (Unit {0})
  write_all buf w = write_rounds (suc (length w.inner.answers)) buf w

  -- A stream under the reader is the list of what its calls of `read` will give.
  pub record EncryptedReader : Type 0 where
    pub inner : List (Result ErrorKind (List ℕ))
    pub cipher : State

  unfoldable pub reader : List (Result ErrorKind (List ℕ)) → List ℕ → List ℕ → EncryptedReader
  reader inner key nonce = record { inner = inner; cipher = new key nonce }

  read_from : List (Result ErrorKind (List ℕ)) → State → Outcome EncryptedReader ErrorKind (List ℕ)
  read_from [] k =
      done (apply_keystream k []).0 (record { inner = []; cipher = (apply_keystream k []).1 })
  read_from (ok buf ∷ rest) k =
      done (apply_keystream k buf).0 (record { inner = rest; cipher = (apply_keystream k buf).1 })
  read_from (err e ∷ rest) k = failed e (record { inner = rest; cipher = k })

  -- At the end of the stream nothing is read.
  unfoldable pub read : Action EncryptedReader ErrorKind (List ℕ)
  unfolding read_from
  read r = read_from r.inner r.cipher

  abbrev pub prepend :
      List ℕ
      → Outcome EncryptedReader ErrorKind (List ℕ)
      → Outcome EncryptedReader ErrorKind (List ℕ)
  prepend bs (done rest r) = done (bs ++ rest) r
  prepend bs (failed e r) = failed e r

  -- The standard `read_to_end`: it reads until a read gives nothing. `other` stands for fuel that
  -- ran out; one round for each coming read and one more are enough.
  unfoldable pub read_to_end : ℕ → Action EncryptedReader ErrorKind (List ℕ)
  read_to_end zero r = failed other r
  read_to_end (suc fuel) r = elim (read r) [
    | done [] r' ↦ done [] r'
    | done (b ∷ bs) r' ↦ prepend (b ∷ bs) (read_to_end fuel r')
    | failed e r' ↦ failed e r'
  ]

  -- Several buffers, one after the other.
  unfoldable pub write_bufs : List (List ℕ) → Action EncryptedWriter ErrorKind (Unit {0})
  write_bufs [] w = done tt w
  write_bufs (buf ∷ bufs) w = elim (write_all buf w) [
    | done u w' ↦ write_bufs bufs w'
    | failed e w' ↦ failed e w'
  ]
