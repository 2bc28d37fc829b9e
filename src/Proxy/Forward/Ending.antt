-- ===== src/Proxy/Forward/Ending.antt =====
-- The end of the thread of `run_proxy_multi` of src/main.rs that forwards commands.
use rtltcp.Prelude.{
  ℕ, ◌≤◌, ◌<◌, ◌≡◌, refl, sym, ap, ◌∙◌, Bool, true, false, not, Bool-cases, inl, inr, if◌then◌else◌,
  List, [], ◌∷◌, some, length, arith,
}
use rtltcp.Prelude.Loop.{Flow, again, break, loop_total, state}
use rtltcp.Io.{ErrorKind, unexpected_eof, Outcome, done, failed}
use rtltcp.Io.Read.{Reader, rest, read_exact, read_exact_short, read_exact_consumes}
use rtltcp.Io.Write.{Socket, socket_write_all}
use rtltcp.Control.RateLimiter.{check}
use rtltcp.Encryption.{StreamCipher}
use rtltcp.Server.Thread.{Tick, is_timeout}
use rtltcp.Proxy.Forward.{
  Forwarder, seal, after_forward, forward, forward_read, forward_round, forward_loop,
}

module _ (cipher : StreamCipher) where
  -- The same to read, and the same lock.
  abbrev Same : Forwarder cipher → Reader → Flow (Forwarder cipher) → Type 0
  Same f r x = ((state x).master ≡ r) × ((state x).upstream.poisoned ≡ f.upstream.poisoned)

  after_forward-Same :
      (f : Forwarder cipher) (o : Outcome Socket ErrorKind (Unit {0}))
      → Same f f.master (after_forward cipher f o)
  unfolding after_forward
  after_forward-Same f (done u k) = (refl, refl)
  after_forward-Same f (failed e k) = (refl, refl)

  forward-Same : (buf : List ℕ) (f : Forwarder cipher) → Same f f.master (forward cipher buf f)
  unfolding forward
  forward-Same buf f = go f.upstream.poisoned
    where
      f' : Forwarder cipher
      f' = record f { write_cipher = (seal cipher f.write_cipher buf).1 }

      go :
          (b : Bool)
          → Same f f.master (
              if b
              then break f'
              else after_forward cipher f'
                  (socket_write_all (seal cipher f.write_cipher buf).0 f.upstream.value))
      go true = (refl, refl)
      go false = after_forward-Same f' _

  forward_read-Same :
      (tick : Tick) (f : Forwarder cipher) (o : Outcome Reader ErrorKind (List ℕ))
      → Same f (rest o) (forward_read cipher tick f o)
  unfolding forward_read
  forward_read-Same tick f (done buf r) = go tick.should_exit (check tick.now f.rate_limiter).1
    where
      f' : Forwarder cipher
      f' = record f { master = r; rate_limiter = (check tick.now f.rate_limiter).0 }

      go :
          (x passed : Bool)
          → Same f r (
              if x
              then break (record f { master = r })
              else if not passed
              then again f'
              else forward cipher buf f')
      go true passed = (refl, refl)
      go false false = (refl, refl)
      go false true = forward-Same buf f'
  forward_read-Same tick f (failed e r) = elim (Bool-cases (is_timeout e)) [
    | inl t ↦ rw t (refl, refl)
    | inr t ↦ rw t (refl, refl)
  ]

  forward_round_falls :
      (ticks : ℕ → Tick) (i : ℕ) (f g : Forwarder cipher)
      → forward_round cipher ticks i f ≡ again g
      → length g.master < length f.master
  unfolding forward_round
  forward_round_falls ticks i f g e = go f.master refl
    where
      left : g.master ≡ rest (read_exact 5 f.master)
      left =
          sym (ap (λ (x : Flow (Forwarder cipher)). (state x).master) e)
          ∙ (forward_read-Same (ticks i) f (read_exact 5 f.master)).0

      go : (r : Reader) → f.master ≡ r → length g.master < length f.master
      go [] h =
          let over : read_exact 5 f.master ≡ failed unexpected_eof [] =
            ap (read_exact 5) h ∙ read_exact_short 5 [] (omega arith) in
          cc (rw (over, forward_read) at e)
      go (v ∷ vs) h =
          let used : length (rest (read_exact 5 f.master)) ≤ length vs =
            rw h (read_exact_consumes 4 v vs) in
          omega (arith, ap length h, used, ap length left)

  -- Whatever the master sends, and whatever the upstream stream answers, the thread ends within one
  -- round for each arrival and one more; and the lock on the upstream stream is as it was.
  pub forward_loop_ends :
      (ticks : ℕ → Tick) (fuel : ℕ) (f : Forwarder cipher)
      → length f.master < fuel
      → (g : Forwarder cipher) × (forward_loop cipher fuel ticks f ≡ some g)
        × (g.upstream.poisoned ≡ f.upstream.poisoned)
  unfolding forward_loop forward_round
  forward_loop_ends ticks fuel f h =
      loop_total (forward_round cipher ticks) (λ g. g.upstream.poisoned ≡ f.upstream.poisoned)
        (λ g. length g.master) (forward_round_falls ticks)
        (λ i g same. (forward_read-Same (ticks i) g (read_exact 5 g.master)).1 ∙ same) fuel 0 f h
        refl
