-- ===== src/Args/Validation.antt =====
-- What a program that got through the start of src/main.rs can rely on.
use Prim.Native.String.{String}
use rtltcp.Prelude.{
  ℕ, ◌≤◌, ◌≡◌, ◌≢◌, ◌↔◌, ◌⊎◌, inl, inr, refl, List, Option, none, some, length, arith, Bool-cases,
  false, ap, ◌==◌, ==_iff,
}
use rtltcp.Io.{ErrorKind, Result, ok, err}
use rtltcp.Error.{RtlTcpError}
use rtltcp.Args.{
  Args, validate_args, main, run_serve_multi, run_serve_single, Mode, parse_encryption_key,
  key_from, key_of_hex, key_of_file, exactly_32, same_port, choose, after_validation,
}

-- The ranges of the options.
pub record IsValid (a : Args) : Type 0 where
  pub buffers_low : 1 ≤ a.buffers
  pub buffers_high : a.buffers ≤ 32
  pub tcp_buffers_low : 1 ≤ a.tcp_buffers
  pub tcp_buffers_high : a.tcp_buffers ≤ 10_485_760
  pub read_timeout_low : 1 ≤ a.read_timeout
  pub write_timeout_low : 1 ≤ a.write_timeout
  pub ports_differ : a.slave_port ≢ some a.master_port

same_port_ne : (o : Option ℕ) (m : ℕ) → o ≢ some m → same_port o m ≡ false
same_port_ne none m h = refl
same_port_ne (some n) m h = elim (Bool-cases (n == m)) [
  | inl e ↦ absurd (h (ap some ((==_iff n m).0 e)))
  | inr e ↦ e
]

validate_args-IsValid : (a : Args) → validate_args a ≡ ok tt → IsValid a
unfolding validate_args
validate_args-IsValid a h = ground arith

IsValid-validate_args : (a : Args) → IsValid a → validate_args a ≡ ok tt
unfolding validate_args
IsValid-validate_args a v = ground (arith, same_port_ne a.slave_port a.master_port v.ports_differ)

-- The options are accepted exactly when the number of buffers is from 1 to 32, the buffer size from
-- 1 to 10485760, both time-outs are positive, and the slave port is not the master port.
pub validate_args_iff : (a : Args) → (validate_args a ≡ ok tt) ↔ IsValid a
validate_args_iff a = (validate_args-IsValid a, IsValid-validate_args a)

chosen_single : (a : Args) (m : Mode) → choose a ≡ ok m → m ≡ run_serve_single → a.slave_port ≡ none
unfolding choose
chosen_single a m h e = ground arith

chosen_multi : (a : Args) (m : Mode) → choose a ≡ ok m → m ≡ run_serve_multi → a.slave_port ≢ none
unfolding choose
chosen_multi a m h e n = ground arith

-- Whatever mode the program goes on with, the options are valid; and with the two serve modes a slave
-- port is given exactly for the multi-client one.
pub main-IsValid :
    (a : Args) (m : Mode)
    → main a ≡ ok m
    → IsValid a
      × (m ≡ run_serve_single → a.slave_port ≡ none)
      × (m ≡ run_serve_multi → a.slave_port ≢ none)
unfolding main
main-IsValid a m h = go (validate_args a) refl h
  where
    go :
        (r : Result RtlTcpError (Unit {0}))
        → validate_args a ≡ r
        → after_validation a r ≡ ok m
        → IsValid a
          × (m ≡ run_serve_single → a.slave_port ≡ none)
          × (m ≡ run_serve_multi → a.slave_port ≢ none)
    go (err e) v h = cc
    go (ok u) v h = (validate_args-IsValid a v, chosen_single a m h, chosen_multi a m h)

module _ (hex_decode : String → Option (List ℕ))
    (read_file : String → Result ErrorKind (List ℕ)) where
  -- Where the key is from.
  abbrev pub Source : Option String → Option String → List ℕ → Type 0
  Source key key_file bytes =
      ((t : String) × (key ≡ some t) × (hex_decode t ≡ some bytes))
      ⊎ ((t : String) × (key ≡ none) × (key_file ≡ some t) × (read_file t ≡ ok bytes))

  exactly_32-some :
      (bytes : List ℕ) (k : Option (List ℕ))
      → exactly_32 bytes ≡ ok k
      → (k ≡ some bytes) × (length bytes ≡ 32)
  unfolding exactly_32
  exactly_32-some bytes k h = ground arith

  key_of_hex-some :
      (t : String) (o : Option (List ℕ)) (k : Option (List ℕ))
      → hex_decode t ≡ o
      → key_of_hex hex_decode read_file o ≡ ok k
      → (bytes : List ℕ) × (k ≡ some bytes) × (length bytes ≡ 32) × (hex_decode t ≡ some bytes)
  unfolding key_of_hex
  key_of_hex-some t none k e h = cc
  key_of_hex-some t (some bytes) k e h = let (s, l) = exactly_32-some bytes k h in (bytes, s, l, e)

  key_of_file-some :
      (t : String) (r : Result ErrorKind (List ℕ)) (k : Option (List ℕ))
      → read_file t ≡ r
      → key_of_file hex_decode read_file r ≡ ok k
      → (bytes : List ℕ) × (k ≡ some bytes) × (length bytes ≡ 32) × (read_file t ≡ ok bytes)
  unfolding key_of_file
  key_of_file-some t (err x) k e h = cc
  key_of_file-some t (ok bytes) k e h = let (s, l) = exactly_32-some bytes k h in (bytes, s, l, e)

  key_from_lem :
      (key key_file : Option String) (k : Option (List ℕ))
      → key_from hex_decode read_file key key_file ≡ ok k
      → ((k ≡ none) × (key ≡ none) × (key_file ≡ none))
        ⊎ ((bytes : List ℕ) × (k ≡ some bytes) × (length bytes ≡ 32) × Source key key_file bytes)
  unfolding key_from
  key_from_lem (some t) key_file k h =
      let (bytes, s, l, e) = key_of_hex-some t (hex_decode t) k refl h in
      inr (bytes, s, l, inl (t, refl, e))
  key_from_lem none (some t) k h =
      let (bytes, s, l, e) = key_of_file-some t (read_file t) k refl h in
      inr (bytes, s, l, inr (t, refl, refl, e))
  key_from_lem none none k h = inl (ground arith, refl, refl)

  -- An encryption key that the program goes on with has 32 bytes, and they are those that the option
  -- spells in hex, or else those of the key file; and it goes on without a key only if neither
  -- option is given.
  pub parse_encryption_key_lem :
      (a : Args) (k : Option (List ℕ))
      → parse_encryption_key hex_decode read_file a ≡ ok k
      → ((k ≡ none) × (a.key ≡ none) × (a.key_file ≡ none))
        ⊎ ((bytes : List ℕ) × (k ≡ some bytes)
            × (length bytes ≡ 32)
            × Source a.key a.key_file bytes)
  unfolding parse_encryption_key
  parse_encryption_key_lem a k h = key_from_lem a.key a.key_file k h
