-- ===== src/Capture/RoundTrip.antt =====
-- Reading back what was written, for src/capture/mod.rs.
use rtltcp.Prelude.{
  ℕ, ◌<◌, ◌≡◌, ◌≢◌, refl, true, bytes_eq, Bool-cases, inl, inr, List, [], ◌∷◌, ◌++◌, map-append,
  length, append_assoc, some, arith, ◌∙◌,
}
use rtltcp.Io.{
  ErrorKind, invalid_data, unexpected_eof, done, failed, >>=-failed, Action, return, ◌>>=◌,
  >>=-done,
}
use rtltcp.Io.Read.{Reader, byte, read_exact, sending, read_exact-append, read_exact_short}
use rtltcp.Io.Write.{vec_write}
use rtltcp.Bytes.{u32_mod, to_le_bytes, from_le_bytes, length-to_le_bytes, from-to_le_bytes}
use rtltcp.Capture.{
  CaptureHeader, CaptureChunk, capture_magic, capture_version, read_header, read_chunk,
  read_chunk_data, read_header_fields, write_chunk,
}
use rtltcp.Capture.Format.{Fits, chunk_bytes, header_bytes, write_chunk_vec}

-- Reading a field of known width off the front.
pub read_field :
    (n : ℕ) (bs : List ℕ) (s : Reader) → length bs ≡ n → read_exact n (sending bs ++ s) ≡ done bs s
read_field n bs s e = rw (← e) (read_exact-append bs s)

-- The length field and the bytes that it announces.
pub read_sized :
    {A : Type 0} (f : List ℕ → Action Reader ErrorKind A) (bs : List ℕ) (s : Reader)
    → length bs < u32_mod
    → (do len_buf ← read_exact 4; payload ← read_exact (from_le_bytes len_buf); f payload)
        (sending (to_le_bytes 4 (length bs) ++ bs) ++ s)
      ≡ f bs s
read_sized f bs s h =
    rw
      (
        map-append byte (to_le_bytes 4 (length bs)) bs,
        append_assoc (sending (to_le_bytes 4 (length bs))),
      )
      (>>=-done (read_exact 4) _ (read_field 4 _ _ (length-to_le_bytes 4 _))
        ∙ rw (from-to_le_bytes 4 (length bs) (omega arith))
            (>>=-done (read_exact (length bs)) f (read_exact-append bs s)))

-- A chunk read off the front of what was written is that chunk, and leaves the rest.
pub read_chunk-chunk_bytes :
    (c : CaptureChunk) (s : Reader)
    → Fits c
    → read_chunk (sending (chunk_bytes c) ++ s) ≡ done (some c) s
unfolding read_chunk read_chunk_data chunk_bytes
read_chunk-chunk_bytes c s (ht, hl) =
    rw
      (
        map-append byte (to_le_bytes 8 c.timestamp_ns) _,
        append_assoc (sending (to_le_bytes 8 c.timestamp_ns)),
        read_field 8 (to_le_bytes 8 c.timestamp_ns) _ (length-to_le_bytes 8 _),
        from-to_le_bytes 8 c.timestamp_ns (omega arith),
      )
      (read_sized (λ bs. return (some (record { timestamp_ns = c.timestamp_ns; payload = bs })))
        c.payload s hl)

pub read_header-header_bytes :
    (h : CaptureHeader) (s : Reader)
    → length h.magic_payload < u32_mod
    → read_header (sending (header_bytes h) ++ s) ≡ done h s
unfolding read_header read_header_fields header_bytes
read_header-header_bytes h s fits =
    rw
      (
        map-append byte (to_le_bytes 4 capture_version) _,
        append_assoc (sending (to_le_bytes 4 capture_version)),
      )
      (>>=-done (read_exact 4) _ (read_exact-append capture_magic _)
        ∙ >>=-done (read_exact 4) _
            (read_field 4 (to_le_bytes 4 capture_version) _ (length-to_le_bytes 4 _))
        ∙ read_sized (λ bs. return (record { magic_payload = bs })) h.magic_payload s fits)

-- `write_chunk` into a buffer appends the bytes of the format, and `read_chunk` reads them back to
-- the chunk that was written and leaves whatever follows, for a chunk whose time stamp fits 64 bits
-- and whose length fits 32.
pub read_chunk-write_chunk :
    (c : CaptureChunk) (v : List ℕ) (s : Reader)
    → Fits c
    → (bs : List ℕ) × (write_chunk c v ≡ done tt (v ++ bs))
      × (read_chunk (sending bs ++ s) ≡ done (some c) s)
read_chunk-write_chunk c v s fits =
    (chunk_bytes c, write_chunk_vec c v fits, read_chunk-chunk_bytes c s fits)

bytes_eq→eq : (xs ys : List ℕ) → bytes_eq xs ys ≡ true → xs ≡ ys
bytes_eq→eq [] [] h = refl
bytes_eq→eq [] (y ∷ ys) h = cc
bytes_eq→eq (x ∷ xs) [] h = cc
bytes_eq→eq (x ∷ xs) (y ∷ ys) h = ground (arith, bytes_eq→eq xs ys)

-- A file that begins with four other bytes than "RTLX" is refused as invalid data, and one that
-- ends before its fourth byte as ended too early.
pub read_header_rejects :
    (m : List ℕ) (s : Reader)
    → (length m ≡ 4 → m ≢ capture_magic → read_header (sending m ++ s) ≡ failed invalid_data s)
      × (length m < 4 → read_header (sending m) ≡ failed unexpected_eof [])
unfolding read_header
read_header_rejects m s = (
  (λ l ne.
      >>=-done (read_exact 4) _ (read_field 4 m s l)
      ∙ elim (Bool-cases (bytes_eq m capture_magic)) [
        | inl t ↦ absurd (ne (bytes_eq→eq m capture_magic t))
        | inr f ↦ rw f
      ]),
  (λ l. >>=-failed (read_exact 4) _ (read_exact_short 4 m l)),
)
