-- ===== src/Server/Masters/Flags.antt =====
-- What the exit flag does to a round of the accept loop of `run_serve_multi` of src/main.rs.
use Prim.Native.String.{String}
use rtltcp.Prelude.{
  ℕ, suc, ◌≡◌, refl, ap, Bool, true, false, not, if_keeps, List, Option, none, some, length,
  if◌then◌else◌,
}
use rtltcp.Io.{Result, ok, err, Outcome, done, failed, convert}
use rtltcp.Io.Duplex.{Duplex, send_all}
use rtltcp.Error.{RtlTcpError, network, io, accept_failed}
use rtltcp.Control.Whitelist.{Addresses, check_whitelist}
use rtltcp.Encryption.{StreamCipher}
use rtltcp.Server.{Controller}
use rtltcp.Server.Thread.{Thread}
use rtltcp.Server.Thread.Master.{Session, master_loop}
use rtltcp.Server.Masters.{
  Accept, connection, refused, Visit, Masters, is_would_block, set_timeouts, control_thread,
  after_join, after_magic, after_timeouts, on_checked, on_accept, master_round,
}

-- The round does not lead to the shutdown.
abbrev pub GoesOn {ℓ} : {S : Type ℓ} → Option (Outcome S RtlTcpError Bool) → Type 0
GoesOn none = Unit {0}
GoesOn (some (done b s)) = b ≡ true
GoesOn (some (failed e s)) = Unit {0}

module _ (device : Controller) (cipher : StreamCipher) (net : Addresses) (magic : List ℕ)
    (key : Option (List ℕ)) (whitelist : List String) (read_timeout write_timeout : ℕ) where
  -- With the flag up no master is taken.
  pub master_round-stops :
      (v : Visit) (s : Masters device.Handle)
      → v.should_exit ≡ true
      → master_round device cipher net magic key whitelist read_timeout write_timeout v s
        ≡ some (done false s)
  unfolding master_round
  master_round-stops v s up =
      ap
        (λ b.
          if b
          then some (done false s)
          else on_accept device cipher net magic key whitelist read_timeout write_timeout v s
              v.accept)
        up

  module _ (v : Visit) (down : v.exit_after ≡ false) where
    after_join-GoesOn :
        (s : Masters device.Handle) (t : Option (Thread device.Handle (Session cipher.State)))
        → GoesOn (after_join device cipher net magic key whitelist read_timeout write_timeout v s t)
    unfolding after_join
    after_join-GoesOn s none = tt
    after_join-GoesOn s (some t) = ap not down

    after_magic-GoesOn :
        (s : Masters device.Handle) (o : Outcome Duplex RtlTcpError (Unit {0}))
        → GoesOn
            (after_magic device cipher net magic key whitelist read_timeout write_timeout v s o)
    unfolding after_magic
    after_magic-GoesOn s (failed e d) = tt
    after_magic-GoesOn s (done u d) = after_join-GoesOn s (
        master_loop device cipher key (suc (length d.incoming)) v.ticks
          (control_thread device cipher net magic key whitelist read_timeout write_timeout v d s))

    after_timeouts-GoesOn :
        (ip : String) (s : Masters device.Handle) (o : Outcome Duplex RtlTcpError (Unit {0}))
        → GoesOn (
            after_timeouts device cipher net magic key whitelist read_timeout write_timeout v ip s
              o)
    unfolding after_timeouts
    after_timeouts-GoesOn ip s (failed e d) = tt
    after_timeouts-GoesOn ip s (done u d) = after_magic-GoesOn _ (convert io (send_all magic) d)

    on_checked-GoesOn :
        (d : Duplex) (ip : String) (s : Masters device.Handle) (r : Result RtlTcpError (Unit {0}))
        → GoesOn
            (on_checked device cipher net magic key whitelist read_timeout write_timeout v d ip s r)
    unfolding on_checked
    on_checked-GoesOn d ip s (err e) = tt
    on_checked-GoesOn d ip s (ok u) =
        after_timeouts-GoesOn ip s (set_timeouts read_timeout write_timeout d)

    on_accept-GoesOn :
        (s : Masters device.Handle) (a : Accept)
        → GoesOn (on_accept device cipher net magic key whitelist read_timeout write_timeout v s a)
    unfolding on_accept
    on_accept-GoesOn s (refused e) =
        if_keeps GoesOn (is_would_block e) (some (done true s))
          (some (failed (network (accept_failed e)) s)) (λ h. refl) (λ h. tt)
    on_accept-GoesOn s (connection d ip) =
        on_checked-GoesOn d ip s (check_whitelist net ip whitelist)

    -- Only the flag leads to the shutdown.
    pub master_round-GoesOn :
        (s : Masters device.Handle)
        → v.should_exit ≡ false
        → GoesOn (master_round device cipher net magic key whitelist read_timeout write_timeout v s)
    unfolding master_round
    master_round-GoesOn s h =
        if_keeps GoesOn v.should_exit (some (done false s))
          (on_accept device cipher net magic key whitelist read_timeout write_timeout v s v.accept)
          (λ up. cc) (λ e. on_accept-GoesOn s v.accept)
