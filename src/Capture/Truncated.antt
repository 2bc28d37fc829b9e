-- ===== src/Capture/Truncated.antt =====
-- What `read_chunk` of src/capture/mod.rs makes of a chunk that is cut short.
use rtltcp.Prelude.{
  ℕ, zero, suc, ◌+◌, ◌-◌, ◌≤◌, ◌<◌, ◌≡◌, ap, ◌∙◌, inl, inr, List, [], ◌∷◌, ◌++◌, length, take,
  length-append, map-append, none, arith, ltb, Bool-cases, if◌then◌else◌,
}
use rtltcp.Io.{unexpected_eof, done, failed, >>=-done, >>=-failed}
use rtltcp.Io.Read.{byte, sending, read_exact, read_exact_short}
use rtltcp.Bytes.{u32_mod, to_le_bytes, length-to_le_bytes, from-to_le_bytes}
use rtltcp.Capture.{CaptureChunk, read_chunk, read_chunk_data}
use rtltcp.Capture.Format.{Fits, chunk_bytes}
use rtltcp.Capture.RoundTrip.{read_field}

module _ {ℓ} {A : Type ℓ} where
  length-take-le : (k : ℕ) (xs : List A) → length (take k xs) ≤ k
  length-take-le zero xs = omega arith
  length-take-le (suc k) [] = omega arith
  length-take-le (suc k) (x ∷ xs) = omega (arith, length-take-le k xs)

  take-append-ge :
      (k j : ℕ) (xs ys : List A) → k ≡ length xs + j → take k (xs ++ ys) ≡ xs ++ take j ys
  take-append-ge k j [] ys e = let e' : k ≡ j = omega arith in rw e'
  take-append-ge zero j (x ∷ xs) ys e = absurd (omega arith)
  take-append-ge (suc k) j (x ∷ xs) ys e = ap (λ t. x ∷ t) (take-append-ge k j xs ys (omega arith))

-- Cut before the time stamp is complete: the same as the end of the capture.
cut_in_timestamp :
    (c : CaptureChunk) (k : ℕ)
    → k < 8
    → read_chunk (sending (take k (chunk_bytes c))) ≡ done none []
unfolding read_chunk
cut_in_timestamp c k h =
    rw (
      read_exact_short 8 (take k (chunk_bytes c)) (omega (arith, length-take-le k (chunk_bytes c))))

-- Cut in the length field or in the data.
cut_after_timestamp :
    (t j : ℕ) (bs : List ℕ)
    → length bs < u32_mod
    → j < 4 + length bs
    → read_chunk_data t (sending (take j (to_le_bytes 4 (length bs) ++ bs)))
      ≡ failed unexpected_eof []
unfolding read_chunk_data
cut_after_timestamp t j bs hl h = elim (Bool-cases (ltb j 4)) [
  | inl early ↦
      >>=-failed (read_exact 4) _
        (read_exact_short 4 (take j field) (ground (arith, length-take-le j field)))
  | inr late ↦
      rw
        (
          take-append-ge j (j - 4) (to_le_bytes 4 (length bs)) bs
              (ground (arith, length-to_le_bytes 4 (length bs))),
          map-append byte (to_le_bytes 4 (length bs)) (take (j - 4) bs),
        )
        (>>=-done (read_exact 4) _
            (read_field 4 (to_le_bytes 4 (length bs)) _ (length-to_le_bytes 4 _))
          ∙ rw (from-to_le_bytes 4 (length bs) (omega arith)) (
              >>=-failed (read_exact (length bs)) _ (
                read_exact_short (length bs) (take (j - 4) bs)
                  (ground (arith, length-take-le (j - 4) bs)))))
]
  where
    field : List ℕ
    field = to_le_bytes 4 (length bs) ++ bs

-- A capture that ends inside a chunk: with less than the eight bytes of the time stamp left,
-- `read_chunk` reports the end of the capture; with more, but not the whole chunk, it fails with
-- `UnexpectedEof`.
pub read_chunk_truncated :
    (c : CaptureChunk) (k : ℕ)
    → Fits c
    → k < length (chunk_bytes c)
    → read_chunk (sending (take k (chunk_bytes c)))
      ≡ (if ltb k 8 then done none [] else failed unexpected_eof [])
unfolding read_chunk chunk_bytes
read_chunk_truncated c k (ht, hl) h = elim (Bool-cases (ltb k 8)) [
  | inl early ↦ rw early (cut_in_timestamp c k (ground arith))
  | inr late ↦
      let stamp : List ℕ = to_le_bytes 8 c.timestamp_ns in
      let body : List ℕ = to_le_bytes 4 (length c.payload) ++ c.payload in
      let whole : k ≡ length stamp + (k - 8) =
        ground (arith, length-to_le_bytes 8 c.timestamp_ns) in
      rw
        (
          late,
          take-append-ge k (k - 8) stamp body whole,
          map-append byte stamp (take (k - 8) body),
          read_field 8 stamp (sending (take (k - 8) body)) (length-to_le_bytes 8 _),
        )
        (cut_after_timestamp _ (k - 8) c.payload hl (
          ground (
            arith,
            length-append stamp body,
            length-to_le_bytes 8 c.timestamp_ns,
            length-append (to_le_bytes 4 (length c.payload)) c.payload,
            length-to_le_bytes 4 (length c.payload),
          )))
]
