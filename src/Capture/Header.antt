-- ===== src/Capture/Header.antt =====
-- Where `write_header` of src/capture/mod.rs leaves the header in a file, also when the writer did
-- not stand at the start.
use rtltcp.Prelude.{
  ℕ, zero, suc, ◌+◌, ◌<◌, ◌%◌, ◌≡◌, refl, sym, ap, ◌∙◌, inl, inr, List, [], ◌∷◌, ◌++◌, length,
  append_assoc, drop, length-append, map-append, append-nil, arith, not, ◌==◌, true, Bool-cases,
  if◌then◌else◌,
}
use rtltcp.Io.{ErrorKind, done, Action, ◌>>◌, ◌>>=◌, return}
use rtltcp.Io.Read.{byte, sending}
use rtltcp.Io.Write.{File, write_at, file_write_all, File_write, File_seek}
use rtltcp.Bytes.{u32_mod, to_le_bytes}
use native.Mathlib.Nat.{zero-add}
use rtltcp.Capture.{
  CaptureHeader, capture_magic, capture_version, write_header, write_header_to_vec, read_header,
}
use rtltcp.Capture.Format.{header_bytes, write_header_to_vec_lem}
use rtltcp.Capture.RoundTrip.{read_header-header_bytes}

-- A file whose writes all succeed.
abbrev pub healthy : List ℕ → ℕ → File
healthy c p = record { content = c; position = p; faults = [] }

drop-nil {ℓ} : {A : Type ℓ} (n : ℕ) → drop {A = A} n [] ≡ []
drop-nil zero = refl
drop-nil (suc n) = refl

drop-append {ℓ} :
    {A : Type ℓ} (xs ys c : List A)
    → drop (length (xs ++ ys)) c ≡ drop (length ys) (drop (length xs) c)
drop-append [] ys c = refl
drop-append (x ∷ xs) ys [] = sym (drop-nil (length ys))
drop-append (x ∷ xs) ys (c ∷ cs) = drop-append xs ys cs

write_at-append_front :
    (xs ys t : List ℕ) → write_at (length xs) ys (xs ++ t) ≡ xs ++ (ys ++ drop (length ys) t)
unfolding write_at
write_at-append_front [] ys t = refl
write_at-append_front (x ∷ xs) ys t = rw (write_at-append_front xs ys t)

-- Two writes one after the other are one write of both.
write_at-write_at :
    (p q : ℕ) (xs ys c : List ℕ)
    → q ≡ p + length xs
    → write_at q ys (write_at p xs c) ≡ write_at p (xs ++ ys) c
unfolding write_at
write_at-write_at zero q xs ys c e =
    let e' : q ≡ length xs = omega arith in
    rw (e', drop-append xs ys c, append_assoc xs ys)
      (write_at-append_front xs ys (drop (length xs) c))
write_at-write_at (suc p) zero xs ys c e = absurd (omega arith)
write_at-write_at (suc p) (suc q) xs ys [] e = rw (write_at-write_at p q xs ys [] (omega arith))
write_at-write_at (suc p) (suc q) xs ys (c ∷ cs) e =
    rw (write_at-write_at p q xs ys cs (omega arith))

write_twice :
    {A : Type 0} (k : Action File ErrorKind A) (xs ys c : List ℕ) (p : ℕ)
    → (file_write_all xs >> (file_write_all ys >> k)) (healthy c p)
      ≡ (file_write_all (xs ++ ys) >> k) (healthy c p)
unfolding file_write_all
write_twice k xs ys c p =
    let sum : p + length xs + length ys ≡ p + length (xs ++ ys) =
      omega (arith, length-append xs ys) in
    rw (write_at-write_at p (p + length xs) xs ys c refl, sum)

-- The four writes of a header are one write of its bytes.
write_fields :
    {A : Type 0} (k : Action File ErrorKind A) (h : CaptureHeader) (c : List ℕ) (p : ℕ)
    → (file_write_all capture_magic
          >> (file_write_all (to_le_bytes 4 capture_version)
              >> (file_write_all (to_le_bytes 4 (length h.magic_payload))
                  >> (file_write_all h.magic_payload >> k))))
        (healthy c p)
      ≡ (file_write_all (header_bytes h) >> k) (healthy c p)
unfolding header_bytes
write_fields k h c p =
    write_twice _ capture_magic (to_le_bytes 4 capture_version) c p
    ∙ write_twice _ (capture_magic ++ to_le_bytes 4 capture_version) _ c p
    ∙ write_twice k _ h.magic_payload c p
    ∙ ap (λ bs. (file_write_all bs >> k) (healthy c p)) (simp append_assoc)

-- The bytes of the file behind the header, once it is written at `p` and, if that is not the start,
-- at the start as well.
behind_header : CaptureHeader → List ℕ → ℕ → List ℕ
behind_header h c p =
    drop (length (header_bytes h)) (if p == 0 then c else write_at p (header_bytes h) c)

write_header_run :
    (h : CaptureHeader) (c : List ℕ) (p : ℕ)
    → length h.magic_payload < u32_mod
    → write_header h (healthy c p)
      ≡ done tt (healthy (header_bytes h ++ behind_header h c p) (p + length (header_bytes h)))
unfolding write_header behind_header
write_header_run h c p fits =
    let small : length h.magic_payload % u32_mod ≡ length h.magic_payload = omega arith in
    rw small (write_fields _ h c p ∙ finish)
  where
    at_start :
        (p : ℕ)
        → (p == 0) ≡ true
        → write_at p (header_bytes h) c ≡ header_bytes h ++ drop (length (header_bytes h)) c
    at_start zero e = unfold write_at in refl
    at_start (suc p) e = absurd (ground arith)

    finish :
        (file_write_all (header_bytes h) >> (do
          end ← File_seek.stream_position
          if not (p == 0)
              then (do
                File_seek.seek_start 0
                file_write_all (write_header_to_vec h)
                File_seek.seek_start end)
              else return tt))
          (healthy c p)
        ≡ done tt (healthy (header_bytes h ++ behind_header h c p) (p + length (header_bytes h)))
    finish = elim (Bool-cases (p == 0)) [
      | inl start ↦ unfold file_write_all in rw (start, at_start p start)
      | inr later ↦ unfold file_write_all write_at in rw (later, write_header_to_vec_lem h fits)
    ]

-- Wherever the writer stands, a header that was written is at the front of the file, so that the
-- reader finds it there, and the writer stands behind what it wrote.
pub read_header-write_header :
    (h : CaptureHeader) (c : List ℕ) (p : ℕ)
    → length h.magic_payload < u32_mod
    → (g : File) × (t : List ℕ) × (write_header h (healthy c p) ≡ done tt g)
      × (g.position ≡ p + length (header_bytes h))
      × (read_header (sending g.content) ≡ done h (sending t))
read_header-write_header h c p fits =
    let t : List ℕ = behind_header h c p in
    (
      healthy (header_bytes h ++ t) (p + length (header_bytes h)),
      t,
      write_header_run h c p fits,
      refl,
      rw (map-append byte (header_bytes h) t) (read_header-header_bytes h (sending t) fits),
    )

-- In a new file the header is all there is.
pub write_header_new :
    (h : CaptureHeader)
    → length h.magic_payload < u32_mod
    → write_header h (healthy [] 0) ≡ done tt (healthy (header_bytes h) (length (header_bytes h)))
unfolding behind_header
write_header_new h fits =
    write_header_run h [] 0 fits
    ∙ rw (
      drop-nil {A = ℕ} (length (header_bytes h)),
      append-nil (header_bytes h),
      zero-add (length (header_bytes h)),
    )
