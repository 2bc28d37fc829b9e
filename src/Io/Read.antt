-- ===== src/Io/Read.antt =====
-- `Read::read_exact`, on a stream that is the list of what the system will answer.
use rtltcp.Prelude.{ℕ, zero, suc, ◌≤◌, ◌<◌, ◌≡◌, refl, List, [], ◌∷◌, ◌++◌, map, length, arith}
use rtltcp.Io.{ErrorKind, unexpected_eof, Outcome, done, failed, Action}

-- A byte that arrives, or a read that fails. After the list the peer has closed the stream.
-- (`read_exact` retries an interrupted read, so that kind never shows.)
pub data Recv : Type 0 where
  byte : ℕ → Recv
  fail : ErrorKind → Recv

abbrev pub Reader : Type 0
Reader = List Recv

push : ℕ → Outcome Reader ErrorKind (List ℕ) → Outcome Reader ErrorKind (List ℕ)
push b (done bs s) = done (b ∷ bs) s
push b (failed e s) = failed e s

-- The bytes that came before an error are gone from the stream.
unfoldable pub read_exact : ℕ → Action Reader ErrorKind (List ℕ)
unfolding push
read_exact zero s = done [] s
read_exact (suc n) [] = failed unexpected_eof []
read_exact (suc n) (fail e ∷ s) = failed e s
read_exact (suc n) (byte b ∷ s) = push b (read_exact n s)

abbrev pub sending : List ℕ → Reader
sending = map byte

pub read_exact-append :
    (bs : List ℕ) (s : Reader) → read_exact (length bs) (sending bs ++ s) ≡ done bs s
unfolding read_exact
read_exact-append [] s = refl
read_exact-append (b ∷ bs) s = rw (read_exact-append bs s)

-- Too few bytes before the end of the stream.
pub read_exact_short :
    (n : ℕ) (bs : List ℕ) → length bs < n → read_exact n (sending bs) ≡ failed unexpected_eof []
unfolding read_exact
read_exact_short zero bs h = elim h [ ]
read_exact_short (suc n) [] h = refl
read_exact_short (suc n) (b ∷ bs) h = rw (read_exact_short n bs (omega arith))

abbrev pub rest {ℓ} : {A : Type ℓ} → Outcome Reader ErrorKind A → Reader
rest (done a s) = s
rest (failed e s) = s

pub length-read_exact : (n : ℕ) (s : Reader) → length (rest (read_exact n s)) ≤ length s
unfolding read_exact
length-read_exact zero s = omega arith
length-read_exact (suc n) [] = omega arith
length-read_exact (suc n) (fail e ∷ s) = omega arith
length-read_exact (suc n) (byte b ∷ s) = ground (arith, length-read_exact n s)

-- A read that is not at the end of the stream uses some of it up.
pub read_exact_consumes :
    (n : ℕ) (v : Recv) (s : Reader) → length (rest (read_exact (suc n) (v ∷ s))) ≤ length s
unfolding read_exact
read_exact_consumes n (fail e) s = omega arith
read_exact_consumes n (byte b) s = ground (arith, length-read_exact n s)

pub read_exact-length :
    (n : ℕ) (s t : Reader) (bs : List ℕ) → read_exact n s ≡ done bs t → length bs ≡ n
unfolding read_exact
read_exact-length zero s t bs h = ground arith
read_exact-length (suc n) [] t bs h = cc
read_exact-length (suc n) (fail e ∷ s) t bs h = cc
read_exact-length (suc n) (byte b ∷ s) t [] h = ground (arith, read_exact-length n s t [])
read_exact-length (suc n) (byte b ∷ s) t (x ∷ bs) h = ground (arith, read_exact-length n s t bs)

-- A failure before the last byte loses the bytes that came before it.
pub read_exact_interrupted :
    (n : ℕ) (bs : List ℕ) (e : ErrorKind) (s : Reader)
    → length bs < n
    → read_exact n (sending bs ++ (fail e ∷ s)) ≡ failed e s
unfolding read_exact
read_exact_interrupted zero bs e s h = elim h [ ]
read_exact_interrupted (suc n) [] e s h = refl
read_exact_interrupted (suc n) (b ∷ bs) e s h = rw (read_exact_interrupted n bs e s (omega arith))
