-- ===== src/Encryption.antt =====
-- src/encryption.rs: the nonce exchange and the two stream wrappers. The cipher of the crate
-- chacha20 is a parameter, and so is what `rand` generates: a nonce is an argument.
pub mod Wrappers
pub mod Transport
use rtltcp.Prelude.{ℕ, ◌≡◌, List, [], ◌++◌, length}
use rtltcp.Io.{ErrorKind, Action, ◌>>=◌, ◌>>◌, return}
use rtltcp.Io.Duplex.{Duplex, recv_exact, send_all}

-- `apply_keystream` combines the bytes in place with the next bytes of the keystream.
pub record StreamCipher : Type 1 where
  pub State : Type 0
  pub new : List ℕ → List ℕ → State
  pub apply_keystream : State → List ℕ → List ℕ × State

-- What the crate documents of a stream cipher: the keystream runs on from one call to the next, it
-- moves by the number of bytes, and it is combined by exclusive or.
pub record CipherLaws (c : StreamCipher) : Type 0 where
  pub length-apply : (s : c.State) (bs : List ℕ) → length (c.apply_keystream s bs).0 ≡ length bs
  pub apply_nil : (s : c.State) → c.apply_keystream s [] ≡ ([], s)
  pub apply-append :
      (s : c.State) (xs ys : List ℕ)
      → (c.apply_keystream s (xs ++ ys)).0
        ≡ (c.apply_keystream s xs).0 ++ (c.apply_keystream (c.apply_keystream s xs).1 ys).0
  pub apply-append_state :
      (s : c.State) (xs ys : List ℕ)
      → (c.apply_keystream s (xs ++ ys)).1 ≡ (c.apply_keystream (c.apply_keystream s xs).1 ys).1
  pub apply-apply :
      (s : c.State) (bs : List ℕ) → (c.apply_keystream s (c.apply_keystream s bs).0).0 ≡ bs
  pub apply-apply_state :
      (s : c.State) (bs : List ℕ)
      → (c.apply_keystream s (c.apply_keystream s bs).0).1 ≡ (c.apply_keystream s bs).1

abbrev pub nonce_size : ℕ
nonce_size = 12

-- The connecting side sends its nonce first. The key plays no part.
unfoldable pub nonce_exchange : List ℕ → List ℕ → Action Duplex ErrorKind (List ℕ × List ℕ)
nonce_exchange my_nonce key = do
  send_all my_nonce
  peer_nonce ← recv_exact nonce_size
  return (my_nonce, peer_nonce)

-- The accepting side reads first.
unfoldable pub server_nonce_exchange : List ℕ → List ℕ → Action Duplex ErrorKind (List ℕ × List ℕ)
server_nonce_exchange my_nonce key = do
  peer_nonce ← recv_exact nonce_size
  send_all my_nonce
  return (my_nonce, peer_nonce)
