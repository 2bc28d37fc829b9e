-- ===== src/Server/Masters/Safety.antt =====
-- What holds of the accept loop of `run_serve_multi` of src/main.rs, whoever connects.
use Prim.Native.String.{String}
use rtltcp.Prelude.{
  ℕ, suc, ◌≡◌, refl, Bool, true, false, not, Bool-cases, inl, inr, List, [], ◌∷◌, ◌++◌, Option,
  some, length, All, arith, if◌then◌else◌,
}
use rtltcp.Prelude.Int.{ℤ}
use rtltcp.Io.{Result, ok, err, Outcome, done, failed, convert}
use rtltcp.Io.Duplex.{Duplex, send_all}
use rtltcp.Error.{RtlTcpError, network, io, accept_failed}
use rtltcp.Control.Ranges.{IsFrequency, IsSampleRate, IsTunerGain, IsPpm}
use rtltcp.Control.Whitelist.{Addresses, check_whitelist}
use rtltcp.Encryption.{StreamCipher}
use rtltcp.Server.{Controller, called}
use rtltcp.Server.Safety.{master_loop_safe}
use rtltcp.Server.Masters.{
  Accept, connection, refused, Visit, Masters, is_would_block, set_timeouts, control_thread,
  after_join, after_magic, after_timeouts, on_checked, on_accept, master_round, masters_loop,
}

-- The state that an outcome leaves.
abbrev pub left : {Handle : Type 0} → Outcome (Masters Handle) RtlTcpError Bool → Masters Handle
left (done b s) = s
left (failed e s) = s

module _ (device : Controller) (P : device.Handle → Type 0)
    (frequency : (f : ℕ) (d : device.Handle)
      → IsFrequency f
      → P d
      → P (called (device.set_center_freq f d)))
    (sample_rate : (r : ℕ) (d : device.Handle)
      → IsSampleRate r
      → P d
      → P (called (device.set_sample_rate r d)))
    (tuner_gain : (g : ℤ) (d : device.Handle)
      → IsTunerGain g
      → P d
      → P (called (device.set_tuner_gain g d)))
    (ppm : (p : ℤ) (d : device.Handle) → IsPpm p → P d → P (called (device.set_ppm p d)))
    (agc_on : (d : device.Handle) → P d → P (called (device.enable_agc d)))
    (agc_off : (d : device.Handle) → P d → P (called (device.disable_agc d)))
    (cipher : StreamCipher) (net : Addresses) (magic : List ℕ) (key : Option (List ℕ))
    (whitelist : List String) (read_timeout write_timeout : ℕ) where
  abbrev pub Passed : Masters device.Handle → Type 0
  Passed s = All (λ c. check_whitelist net c.0 whitelist ≡ ok tt) s.all_streams

  abbrev pub Good : Masters device.Handle → Type 0
  Good s = P s.board.ctl.value × Passed s

  -- There is an outcome, and it leaves a good state.
  abbrev pub GoodAnswer : Option (Outcome (Masters device.Handle) RtlTcpError Bool) → Type 0
  GoodAnswer o =
      (r : Outcome (Masters device.Handle) RtlTcpError Bool) × (o ≡ some r) × Good (left r)

  after_magic-Good :
      (v : Visit) (s : Masters device.Handle) (o : Outcome Duplex RtlTcpError (Unit {0}))
      → Good s
      → GoodAnswer
          (after_magic device cipher net magic key whitelist read_timeout write_timeout v s o)
  unfolding after_magic after_join control_thread
  after_magic-Good v s (failed e d) g = (failed e s, refl, g)
  after_magic-Good v s (done u d) (p, w) =
      let (t, run, q) =
        master_loop_safe device P frequency sample_rate tuner_gain ppm agc_on agc_off cipher key
          (suc (length d.incoming)) v.ticks
          (control_thread device cipher net magic key whitelist read_timeout write_timeout v d s)
          (omega arith) p in
      (
        done (not v.exit_after)
            (record s { board = t.board; encryption_nonces = t.session.encryption_nonces }),
        rw run refl,
        (q, w),
      )

  All-snoc :
      (Q : String × Duplex → Type 0) (xs : List (String × Duplex)) (x : String × Duplex)
      → All Q xs
      → Q x
      → All Q (xs ++ (x ∷ []))
  All-snoc Q [] x h q = (q, tt)
  All-snoc Q (y ∷ ys) x h q = (h.0, All-snoc Q ys x h.1 q)

  on_checked-Good :
      (v : Visit) (d : Duplex) (ip : String) (s : Masters device.Handle)
      (r : Result RtlTcpError (Unit {0}))
      → check_whitelist net ip whitelist ≡ r
      → Good s
      → GoodAnswer
          (on_checked device cipher net magic key whitelist read_timeout write_timeout v d ip s r)
  unfolding on_checked after_timeouts
  on_checked-Good v d ip s (err e) h g = (failed e s, refl, g)
  on_checked-Good v d ip s (ok u) h (p, w) = go (set_timeouts read_timeout write_timeout d)
    where
      go :
          (o : Outcome Duplex RtlTcpError (Unit {0}))
          → GoodAnswer (
              after_timeouts device cipher net magic key whitelist read_timeout write_timeout v ip s
                o)
      go (failed e d') = (failed e s, refl, (p, w))
      go (done u d') =
          after_magic-Good v (record s { all_streams = s.all_streams ++ ((ip, d') ∷ []) })
            (convert io (send_all magic) d') (p, All-snoc _ s.all_streams (ip, d') w h)

  on_accept-Good :
      (v : Visit) (s : Masters device.Handle) (a : Accept)
      → Good s
      → GoodAnswer
          (on_accept device cipher net magic key whitelist read_timeout write_timeout v s a)
  unfolding on_accept
  on_accept-Good v s (refused e) g = elim (Bool-cases (is_would_block e)) [
    | inl t ↦ rw t (done true s, refl, g)
    | inr t ↦ rw t (failed (network (accept_failed e)) s, refl, g)
  ]
  on_accept-Good v s (connection d ip) g =
      on_checked-Good v d ip s (check_whitelist net ip whitelist) refl g

  pub master_round-Good :
      (v : Visit) (s : Masters device.Handle)
      → Good s
      → GoodAnswer
          (master_round device cipher net magic key whitelist read_timeout write_timeout v s)
  unfolding master_round
  master_round-Good v s g = elim (Bool-cases v.should_exit) [
    | inl t ↦ rw t (done false s, refl, g)
    | inr t ↦ rw t (on_accept-Good v s v.accept g)
  ]

  -- Whoever connects, one after another, and whatever each sends, in whatever pieces and with
  -- whatever failures: each control thread ends within one round for each arrival and one more, so
  -- the accept loop gets through its rounds or ends; whatever the device keeps under calls with
  -- values in their ranges, and under switching the automatic gain, it still has then; and every
  -- master that was taken passes the whitelist, if those before did.
  pub masters_loop_safe :
      (vs : List Visit) (s : Masters device.Handle)
      → P s.board.ctl.value
      → All (λ c. check_whitelist net c.0 whitelist ≡ ok tt) s.all_streams
      → (r : Outcome (Masters device.Handle) RtlTcpError Bool) × (masters_loop device cipher net
            magic key whitelist read_timeout write_timeout vs s
          ≡ some r)
        × P (left r).board.ctl.value
        × All (λ c. check_whitelist net c.0 whitelist ≡ ok tt) (left r).all_streams
  unfolding masters_loop
  masters_loop_safe [] s p w = (done true s, refl, p, w)
  masters_loop_safe (v ∷ vs) s p w =
      let (r, run, g) = master_round-Good v s (p, w) in
      rw (masters_loop, run) (go r g (λ s' q w'. masters_loop_safe vs s' q w'))
    where
      loop :
          List Visit
          → Masters device.Handle
          → Option (Outcome (Masters device.Handle) RtlTcpError Bool)
      loop ws s' =
          masters_loop device cipher net magic key whitelist read_timeout write_timeout ws s'

      Ends : Option (Outcome (Masters device.Handle) RtlTcpError Bool) → Type 0
      Ends o =
          (r : Outcome (Masters device.Handle) RtlTcpError Bool) × (o ≡ some r)
          × P (left r).board.ctl.value
          × Passed (left r)

      go :
          (o : Outcome (Masters device.Handle) RtlTcpError Bool)
          → Good (left o)
          → ((s' : Masters device.Handle) → P s'.board.ctl.value → Passed s' → Ends (loop vs s'))
          → Ends (elim o [
            | done b s' ↦ let rest = loop vs s' in if b then rest else some (done false s')
            | failed e s' ↦ some (failed e s')
          ])
      go (done true s') (q, w') ih = ih s' q w'
      go (done false s') (q, w') ih = (done false s', refl, q, w')
      go (failed e s') (q, w') ih = (failed e s', refl, q, w')
