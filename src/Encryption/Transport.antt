-- ===== src/Encryption/Transport.antt =====
-- What arrives through the wrappers of src/encryption.rs.
use rtltcp.Prelude.{
  ℕ, zero, suc, ◌<◌, ◌≡◌, refl, ◌∙◌, List, [], ◌∷◌, ◌++◌, length, take, drop, length-take_of_le,
  drop-length, false, map, append-nil, append_assoc, concat, All, arith, ◌==◌,
}
use rtltcp.Io.{ErrorKind, Result, ok, done}
use rtltcp.Encryption.{StreamCipher, CipherLaws}
use rtltcp.Encryption.Wrappers.{
  EncryptedWriter, writer, reader, write, write_rounds, write_all, write_bufs, read, read_to_end,
  prepend,
}

module _ (c : StreamCipher) (laws : CipherLaws c) where
  open c use {State, new, apply_keystream}
  open laws use {
    length-apply, apply_nil, apply-append, apply-append_state, apply-apply, apply-apply_state,
  }

  abbrev pub writing : List ℕ → State → EncryptedWriter c
  writing taken k = record { inner = record { taken = taken; answers = [] }; cipher = k }

  write_rounds_whole :
      (fuel : ℕ) (buf taken : List ℕ) (k : State)
      → write_rounds c (suc fuel) buf (writing taken k)
        ≡ done tt (writing (taken ++ (apply_keystream k buf).0) (apply_keystream k buf).1)
  unfolding write_rounds write
  write_rounds_whole fuel [] taken k = rw (apply_nil k, append-nil taken)
  write_rounds_whole zero (b ∷ bs) taken k =
      rw (length-apply k (b ∷ bs), drop-length bs) (ground arith)
  write_rounds_whole (suc fuel) (b ∷ bs) taken k =
      rw (length-apply k (b ∷ bs), drop-length bs) (ground arith)

  write_all_whole :
      (buf taken : List ℕ) (k : State)
      → write_all c buf (writing taken k)
        ≡ done tt (writing (taken ++ (apply_keystream k buf).0) (apply_keystream k buf).1)
  unfolding write_all
  write_all_whole buf taken k = write_rounds_whole 0 buf taken k

  write_bufs_whole :
      (bufs : List (List ℕ)) (taken : List ℕ) (k : State)
      → write_bufs c bufs (writing taken k)
        ≡ done tt (
            writing
              (taken ++ (apply_keystream k (concat bufs)).0)
              (apply_keystream k (concat bufs)).1)
  unfolding write_bufs
  write_bufs_whole [] taken k = rw (apply_nil k, append-nil taken)
  write_bufs_whole (buf ∷ bufs) taken k = rw (
    write_all_whole buf taken k,
    write_bufs,
    write_bufs_whole bufs (taken ++ (apply_keystream k buf).0) (apply_keystream k buf).1,
    apply-append k buf (concat bufs),
    apply-append_state k buf (concat bufs),
    append_assoc taken (apply_keystream k buf).0
        (apply_keystream (apply_keystream k buf).1 (concat bufs)).0,
  )

  abbrev pub NonEmpty : List ℕ → Type 0
  NonEmpty buf = 0 < length buf

  read_to_end_chunk :
      (fuel : ℕ) (chunk : List ℕ) (rest : List (Result ErrorKind (List ℕ))) (k : State)
      → NonEmpty chunk
      → read_to_end c (suc fuel) (record { inner = ok chunk ∷ rest; cipher = k })
        ≡ prepend c
            (apply_keystream k chunk).0
            (read_to_end c fuel (record { inner = rest; cipher = (apply_keystream k chunk).1 }))
  unfolding read_to_end read
  read_to_end_chunk fuel chunk rest k h = go (apply_keystream k chunk).0 (length-apply k chunk) refl
    where
      go :
          (xs : List ℕ)
          → length xs ≡ length chunk
          → (apply_keystream k chunk).0 ≡ xs
          → read_to_end c (suc fuel) (record { inner = ok chunk ∷ rest; cipher = k })
            ≡ prepend c
                (apply_keystream k chunk).0
                (read_to_end c fuel (record { inner = rest; cipher = (apply_keystream k chunk).1 }))
      go [] l e = absurd (omega arith)
      go (x ∷ xs) l e = rw (e, read_to_end)

  read_to_end_whole :
      (chunks : List (List ℕ)) (k : State)
      → All NonEmpty chunks
      → read_to_end c (suc (length chunks)) (record { inner = map ok chunks; cipher = k })
        ≡ done
            (apply_keystream k (concat chunks)).0
            (record { inner = []; cipher = (apply_keystream k (concat chunks)).1 })
  unfolding read_to_end read
  read_to_end_whole [] k h = rw (apply_nil k)
  read_to_end_whole (chunk ∷ chunks) k (h, hs) =
      read_to_end_chunk (suc (length chunks)) chunk (map ok chunks) k h
      ∙ rw (
        read_to_end_whole chunks (apply_keystream k chunk).1 hs,
        apply-append k chunk (concat chunks),
        apply-append_state k chunk (concat chunks),
      )

  -- Buffers that are written through the encrypting writer, over a stream that takes each buffer
  -- whole, and the bytes then read in any non-empty pieces through the decrypting reader with the
  -- same key and nonce: what is read to the end is what was written.
  pub encrypted_roundtrip :
      (key nonce : List ℕ) (bufs chunks : List (List ℕ))
      → All NonEmpty chunks
      → concat chunks ≡ (apply_keystream (new key nonce) (concat bufs)).0
      → (write_bufs c bufs (writer c (record { taken = []; answers = [] }) key nonce)
          ≡ done tt (writing (concat chunks) (apply_keystream (new key nonce) (concat bufs)).1))
        × (read_to_end c (suc (length chunks)) (reader c (map ok chunks) key nonce)
            ≡ done
                (concat bufs)
                (record { inner = []; cipher = (apply_keystream (new key nonce) (concat bufs)).1 }))
  unfolding writer reader
  encrypted_roundtrip key nonce bufs chunks full same = (
    write_bufs_whole bufs [] (new key nonce) ∙ rw same,
    read_to_end_whole chunks (new key nonce) full
        ∙ rw (
          same,
          apply-apply (new key nonce) (concat bufs),
          apply-apply_state (new key nonce) (concat bufs),
        ),
  )

  -- When the stream under the writer takes only the first `n` bytes of a buffer, more than none and
  -- fewer than all, and then takes what it is given: `write_all` succeeds, and has sent the first `n`
  -- bytes of the buffer's encryption and then the rest of the buffer encrypted again, from the state
  -- of the cipher behind the whole buffer.
  pub write_all_short :
      (b : ℕ) (bs taken : List ℕ) (k : State) (n : ℕ)
      → 0 < n
      → n < length (b ∷ bs)
      → write_all c
          (b ∷ bs)
          (record { inner = record { taken = taken; answers = ok n ∷ [] }; cipher = k })
        ≡ (let (wire, k') = apply_keystream k (b ∷ bs) in
            let (again, k'') = apply_keystream k' (drop n (b ∷ bs)) in
            done tt (writing ((taken ++ take n wire) ++ again) k''))
  unfolding write_all
  write_all_short b bs taken k n pos short =
      let wire : List ℕ = (apply_keystream k (b ∷ bs)).0 in
      let k' : State = (apply_keystream k (b ∷ bs)).1 in
      let took : length (take n wire) ≡ n =
        length-take_of_le n wire (omega (arith, length-apply k (b ∷ bs))) in
      unfold write_rounds write in
      rw (took, positive n pos) (write_rounds_whole 0 (drop n (b ∷ bs)) (taken ++ take n wire) k')
    where
      positive : (n : ℕ) → 0 < n → (n == 0) ≡ false
      positive n h = ground arith
