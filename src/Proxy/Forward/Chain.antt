-- ===== src/Proxy/Forward/Chain.antt =====
-- A chain of a proxy and a server, of src/main.rs: the commands of the proxy's master at the device
-- of the server.
use rtltcp.Prelude.{
  ℕ, zero, suc, ◌≤◌, ◌<◌, ◌≡◌, ◌∙◌, false, Bool-cases, inl, inr, List, [], ◌∷◌, ◌++◌, append-nil,
  append_assoc, Option, some, length, All, arith, if◌then◌else◌,
}
use rtltcp.Prelude.Loop.{again, loop, loop_again, loop_break}
use rtltcp.Io.Read.{Reader, sending, read_exact}
use rtltcp.Io.Write.{socket_write_all}
use rtltcp.Control.RateLimiter.{RateLimiter, check}
use rtltcp.Encryption.{StreamCipher, CipherLaws}
use rtltcp.Server.{Controller}
use rtltcp.Server.Commands.{Command, Encodable, encode, length-encode}
use rtltcp.Server.Thread.{Tick, Thread}
use rtltcp.Server.Thread.Master.{Session, master_loop}
use rtltcp.Server.Delivery.{let_through, perform_all, frames}
use rtltcp.Server.Frames.{read_frame, master_loop-frames}
use rtltcp.Proxy.Forward.{Forwarder, forward_round, forward_loop}

module _ (cipher : StreamCipher) (laws : CipherLaws cipher) (ticks : ℕ → Tick)
    (running : (i : ℕ) → (ticks i).should_exit ≡ false) where
  open cipher use {State, apply_keystream}

  abbrev pub forwarding : Reader → RateLimiter → State → List ℕ → Forwarder cipher
  forwarding r limiter k sent = record {
    master = r;
    rate_limiter = limiter;
    write_cipher = some k;
    upstream = record { poisoned = false; value = record { sent = sent; faults = [] } };
  }

  pub let_through-All :
      (i : ℕ) (r : RateLimiter) (cs : List Command)
      → All Encodable cs
      → All Encodable (let_through ticks i r cs)
  unfolding let_through
  let_through-All i r [] h = h
  let_through-All i r (c ∷ cs) (f, h) = elim (Bool-cases (check (ticks i).now r).1) [
    | inl t ↦ rw t (f, let_through-All (suc i) (check (ticks i).now r).0 cs h)
    | inr t ↦ rw t (let_through-All (suc i) (check (ticks i).now r).0 cs h)
  ]

  pub length-let_through :
      (i : ℕ) (r : RateLimiter) (cs : List Command) → length (let_through ticks i r cs) ≤ length cs
  unfolding let_through
  length-let_through i r [] = omega arith
  length-let_through i r (c ∷ cs) =
      ground (arith, length-let_through (suc i) (check (ticks i).now r).0 cs)

  forward_one :
      (c : Command) (cs : List Command) (i : ℕ) (limiter : RateLimiter) (k : State) (sent : List ℕ)
      → forward_round cipher ticks i (forwarding (sending (frames (c ∷ cs))) limiter k sent)
        ≡ again (
            let (r, passed) = check (ticks i).now limiter in
            if passed
            then forwarding
                (sending (frames cs))
                r
                (apply_keystream k (encode c)).1
                (sent ++ (apply_keystream k (encode c)).0)
            else forwarding (sending (frames cs)) r k sent)
  unfolding forward_round socket_write_all
  forward_one c cs i limiter k sent =
      rw (read_frame (encode c) (frames cs) (length-encode c), running i)
        (elim (Bool-cases (check (ticks i).now limiter).1) [ inl t ↦ rw t | inr t ↦ rw t ])

  -- What goes upstream is the encryption of the frames that the limiter lets through.
  pub forward_loop-frames :
      (cs : List Command) (fuel i : ℕ) (limiter : RateLimiter) (k : State) (sent : List ℕ)
      → length cs < fuel
      → (r : RateLimiter) × (loop
            (forward_round cipher ticks)
            fuel
            i
            (forwarding (sending (frames cs)) limiter k sent)
          ≡ (let (wire, k') = apply_keystream k (frames (let_through ticks i limiter cs)) in
              some (forwarding [] r k' (sent ++ wire))))
  unfolding let_through
  forward_loop-frames cs zero i limiter k sent h = absurd (omega arith)
  forward_loop-frames [] (suc fuel) i limiter k sent h = (
    limiter,
    loop_break (forward_round cipher ticks) fuel i
        (unfold forward_round read_exact in rw (laws.apply_nil k, append-nil sent)),
  )
  forward_loop-frames (c ∷ cs) (suc fuel) i limiter k sent h =
      elim (Bool-cases (check (ticks i).now limiter).1) [
        | inl t ↦
            let k1 : State = (apply_keystream k (encode c)).1 in
            let (r, run) =
              forward_loop-frames cs fuel (suc i) (check (ticks i).now limiter).0 k1
                (sent ++ (apply_keystream k (encode c)).0) (omega arith) in
            let later : List Command =
              let_through ticks (suc i) (check (ticks i).now limiter).0 cs in
            (
              r,
              loop_again (forward_round cipher ticks) fuel i
                    (rw t at (forward_one c cs i limiter k sent))
                  ∙ run
                  ∙ rw (
                    t,
                    append_assoc sent (apply_keystream k (encode c)).0
                        (apply_keystream k1 (frames later)).0,
                    laws.apply-append k (encode c) (frames later),
                    laws.apply-append_state k (encode c) (frames later),
                  ),
            )
        | inr t ↦
            let (r, run) =
              forward_loop-frames cs fuel (suc i) (check (ticks i).now limiter).0 k sent
                (omega arith) in
            (
              r,
              loop_again (forward_round cipher ticks) fuel i
                    (rw t at (forward_one c cs i limiter k sent))
                  ∙ run
                  ∙ rw t,
            )
      ]

  -- A proxy whose upstream is encrypted forwards its master's commands, in range or not, those that
  -- its rate limiter lets through, as one encrypted stream; and the server at the other end, if it
  -- reads that stream with the cipher state that the proxy began with, performs them as it does any
  -- command, those that its own limiter lets through, in their order. Both threads then end. No exit
  -- flag is up, and both have fuel for one round more than there are commands.
  pub chain_commands :
      (device : Controller) (key : Option (List ℕ)) (server_ticks : ℕ → Tick) (cs : List Command)
      (fuel : ℕ) (limiter : RateLimiter) (k : State) (s : Thread device.Handle (Session State))
      → ((i : ℕ) → (server_ticks i).should_exit ≡ false)
      → All Encodable cs
      → length cs < fuel
      → s.session.read_cipher ≡ some k
      → s.stream.incoming ≡ sending (apply_keystream k (frames (let_through ticks 0 limiter cs))).0
      → (r : RateLimiter) × (k' : State) × (t : Thread device.Handle (Session State))
        × (forward_loop cipher fuel ticks (forwarding (sending (frames cs)) limiter k [])
            ≡ some (
                forwarding [] r k' (apply_keystream k (frames (let_through ticks 0 limiter cs))).0))
        × (master_loop device cipher key fuel server_ticks s ≡ some t)
        × (t.board
            ≡ perform_all device
                (let_through server_ticks 0 s.rate_limiter (let_through ticks 0 limiter cs))
                s.board)
  unfolding forward_loop
  chain_commands device key server_ticks cs fuel limiter k s up fits h c arrives =
      let (r, sent) = forward_loop-frames cs fuel 0 limiter k [] h in
      let (t, run, same) =
        master_loop-frames device cipher key server_ticks (let_through ticks 0 limiter cs) fuel s k
          laws up (let_through-All 0 limiter cs fits) c arrives
          (omega (arith, length-let_through 0 limiter cs)) in
      (r, (apply_keystream k (frames (let_through ticks 0 limiter cs))).1, t, sent, run, same)
