-- ===== src/Capture/Consumed.antt =====
-- The readers of src/capture/mod.rs never put anything back on the stream, so that a loop of them
-- comes to an end.
use rtltcp.Prelude.{ℕ, ◌≤◌, ◌≡◌, refl, not, bytes_eq, if_keeps, List, [], ◌∷◌, none, length, arith}
use rtltcp.Io.{ErrorKind, unexpected_eof, Outcome, done, failed, Action, ◌>>=◌}
use rtltcp.Io.Read.{Reader, Recv, rest, read_exact, length-read_exact, read_exact_consumes}
use rtltcp.Bytes.{from_le_bytes}
use rtltcp.Capture.{
  capture_magic, read_header, read_header_fields, read_chunk, read_chunk_data, after_timestamp,
}

-- An action never puts anything back on the stream.
abbrev pub Consumes {ℓ} : {A : Type ℓ} → Action Reader ErrorKind A → Type 0
Consumes f = (s : Reader) → length (rest (f s)) ≤ length s

Consumes-bind :
    {A B : Type 0} (f : Action Reader ErrorKind A) (g : A → Action Reader ErrorKind B)
    → Consumes f
    → ((a : A) → Consumes (g a))
    → Consumes (f >>= g)
Consumes-bind {A} {B} f g hf hg s = go (f s) (hf s)
  where
    go :
        (o : Outcome Reader ErrorKind A)
        → length (rest o) ≤ length s
        → length (rest {A = B} (elim o [ done a s' ↦ g a s' | failed e s' ↦ failed e s' ]))
          ≤ length s
    go (done a t) h = omega (arith, hg a t, h)
    go (failed e t) h = h

pub read_header-Consumes : Consumes read_header
unfolding read_header read_header_fields
read_header-Consumes = Consumes-bind (read_exact 4) _ (length-read_exact 4) (λ magic.
    if_keeps Consumes (not (bytes_eq magic capture_magic)) _ read_header_fields (λ h s. omega arith)
      (λ h. Consumes-bind (read_exact 4) _ (length-read_exact 4) (λ version.
        Consumes-bind (read_exact 4) _ (length-read_exact 4) (λ magic_len.
          Consumes-bind (read_exact (from_le_bytes magic_len)) _
            (length-read_exact (from_le_bytes magic_len)) (λ payload s. omega arith)))))

read_chunk_data-Consumes : (timestamp_ns : ℕ) → Consumes (read_chunk_data timestamp_ns)
unfolding read_chunk_data
read_chunk_data-Consumes timestamp_ns = Consumes-bind (read_exact 4) _ (length-read_exact 4) (λ len.
    Consumes-bind (read_exact (from_le_bytes len)) _ (length-read_exact (from_le_bytes len))
      (λ payload s. omega arith))

after_timestamp-rest :
    (o : Outcome Reader ErrorKind (List ℕ)) → length (rest (after_timestamp o)) ≤ length (rest o)
unfolding after_timestamp
after_timestamp-rest (done ts s) = read_chunk_data-Consumes (from_le_bytes ts) s
after_timestamp-rest (failed unexpected_eof s) = omega arith
after_timestamp-rest (failed e s) = omega arith

-- A chunk is read from what is ahead.
pub read_chunk_uses : (v : Recv) (s : Reader) → length (rest (read_chunk (v ∷ s))) ≤ length s
unfolding read_chunk
read_chunk_uses v s =
    omega (arith, after_timestamp-rest (read_exact 8 (v ∷ s)), read_exact_consumes 7 v s)

pub read_chunk-end : read_chunk [] ≡ done none []
unfolding read_chunk read_exact
read_chunk-end = refl
