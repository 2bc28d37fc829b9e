-- ===== src/Io/Write.antt =====
-- `Write::write_all` and `Seek`: the interface, and its three implementations that the program
-- uses: a vector, a socket, a file.
use rtltcp.Prelude.{
  ℕ, zero, suc, ◌+◌, ◌≡◌, refl, ◌⊎◌, inl, inr, List, [], ◌∷◌, ◌++◌, Option, none, some, length,
  take, drop,
}
use rtltcp.Io.{ErrorKind, Outcome, done, failed, Action}

pub record Write (W : Type 0) : Type 0 where
  pub write_all : List ℕ → Action W ErrorKind (Unit {0})

-- `Vec<u8>` grows, and never fails.
instance abbrev pub vec_write : Write (List ℕ)
vec_write = record { write_all = λ bs v. done tt (v ++ bs) }

-- The coming writes: `none` for one that succeeds, `some (n, e)` for one that fails with `e` after
-- `n` bytes. After the list all writes succeed.
abbrev pub Faults : Type 0
Faults = List (Option (ℕ × ErrorKind))

pub record Socket : Type 0 where
  pub sent : List ℕ
  pub faults : Faults

socket_write : List ℕ → List ℕ → Faults → Outcome Socket ErrorKind (Unit {0})
socket_write bs sent [] = done tt (record { sent = sent ++ bs; faults = [] })
socket_write bs sent (none ∷ fs) = done tt (record { sent = sent ++ bs; faults = fs })
socket_write bs sent (some (n, e) ∷ fs) =
    failed e (record { sent = sent ++ take n bs; faults = fs })

unfoldable pub socket_write_all : List ℕ → Action Socket ErrorKind (Unit {0})
unfolding socket_write
socket_write_all bs k = socket_write bs k.sent k.faults

-- A write goes out whole, or a first part of it does.
pub socket_write_all-cases :
    (bs : List ℕ) (k : Socket)
    → ((fs : Faults) × (socket_write_all bs k
          ≡ done tt (record { sent = k.sent ++ bs; faults = fs })))
      ⊎ ((n : ℕ) × (e : ErrorKind) × (fs : Faults) × (socket_write_all bs k
            ≡ failed e (record { sent = k.sent ++ take n bs; faults = fs })))
unfolding socket_write_all socket_write
socket_write_all-cases bs k = go k.faults
  where
    go :
        (fs : Faults)
        → ((gs : Faults) × (socket_write bs k.sent fs
              ≡ done tt (record { sent = k.sent ++ bs; faults = gs })))
          ⊎ ((n : ℕ) × (e : ErrorKind) × (gs : Faults) × (socket_write bs k.sent fs
                ≡ failed e (record { sent = k.sent ++ take n bs; faults = gs })))
    go [] = inl ([], refl)
    go (none ∷ fs) = inl (fs, refl)
    go (some (n, e) ∷ fs) = inr (n, e, fs, refl)

instance abbrev pub Socket_write : Write Socket
Socket_write = record { write_all = socket_write_all }

pub record File : Type 0 where
  pub content : List ℕ
  pub position : ℕ
  pub faults : Faults

-- A write over the bytes at a position; a gap before it is filled with zeros.
unfoldable pub write_at : ℕ → List ℕ → List ℕ → List ℕ
write_at zero bs content = bs ++ drop (length bs) content
write_at (suc p) bs [] = 0 ∷ write_at p bs []
write_at (suc p) bs (c ∷ cs) = c ∷ write_at p bs cs

put : List ℕ → File → Faults → File
put bs f fs = record {
  content = write_at f.position bs f.content;
  position = f.position + length bs;
  faults = fs;
}

file_write : List ℕ → File → Faults → Outcome File ErrorKind (Unit {0})
unfolding put
file_write bs f [] = done tt (put bs f [])
file_write bs f (none ∷ fs) = done tt (put bs f fs)
file_write bs f (some (n, e) ∷ fs) = failed e (put (take n bs) f fs)

unfoldable pub file_write_all : List ℕ → Action File ErrorKind (Unit {0})
unfolding file_write
file_write_all bs f = file_write bs f f.faults

instance abbrev pub File_write : Write File
File_write = record { write_all = file_write_all }

pub record Seek (W : Type 0) : Type 0 where
  pub stream_position : Action W ErrorKind ℕ
  pub seek_start : ℕ → Action W ErrorKind (Unit {0})

instance abbrev pub File_seek : Seek File
File_seek = record {
  stream_position = λ f. done f.position f;
  seek_start = λ n f. done tt (record f { position = n });
}

pub write_at_end : (bs content : List ℕ) → write_at (length content) bs content ≡ content ++ bs
unfolding write_at
write_at_end [] [] = refl
write_at_end (b ∷ bs) [] = simp mathlib.Core.List.append-nil
write_at_end bs (c ∷ cs) = rw (write_at_end bs cs)
