-- ===== src/Proxy/Masters/Flags.antt =====
-- What the exit flag does to a round of the accept loop of `run_proxy_multi` of src/main.rs.
use Prim.Native.String.{String}
use rtltcp.Prelude.{
  ℕ, suc, ◌≡◌, refl, ap, true, false, not, if_keeps, List, Option, none, some, length,
  if◌then◌else◌,
}
use rtltcp.Io.{Result, ok, err, Outcome, done, failed, convert}
use rtltcp.Io.Duplex.{Duplex, send_all}
use rtltcp.Error.{RtlTcpError, network, io, accept_failed}
use rtltcp.Control.Whitelist.{Addresses, check_whitelist}
use rtltcp.Encryption.{StreamCipher}
use rtltcp.Server.Masters.{Accept, connection, refused, Visit, is_would_block, set_timeouts}
use rtltcp.Server.Masters.Flags.{GoesOn}
use rtltcp.Proxy.Forward.{Forwarder, forward_loop}
use rtltcp.Proxy.Masters.{
  Proxied, forwarder, after_join, after_magic, after_timeouts, on_checked, on_accept, master_round,
}

module _ (cipher : StreamCipher) (net : Addresses) (magic : List ℕ) (whitelist : List String)
    (read_timeout write_timeout : ℕ) where
  abbrev Shared : Type 0
  Shared = Proxied cipher net magic whitelist read_timeout write_timeout

  -- With the flag up no master is taken.
  pub master_round-stops :
      (v : Visit) (s : Shared)
      → v.should_exit ≡ true
      → master_round cipher net magic whitelist read_timeout write_timeout v s ≡ some (done false s)
  unfolding master_round
  master_round-stops v s up =
      ap
        (λ b.
          if b
          then some (done false s)
          else on_accept cipher net magic whitelist read_timeout write_timeout v s v.accept)
        up

  module _ (v : Visit) (down : v.exit_after ≡ false) where
    after_join-GoesOn :
        (t : Option (Forwarder cipher))
        → GoesOn (after_join cipher net magic whitelist read_timeout write_timeout v t)
    unfolding after_join
    after_join-GoesOn none = tt
    after_join-GoesOn (some t) = ap not down

    after_magic-GoesOn :
        (s : Shared) (o : Outcome Duplex RtlTcpError (Unit {0}))
        → GoesOn (after_magic cipher net magic whitelist read_timeout write_timeout v s o)
    unfolding after_magic
    after_magic-GoesOn s (failed e d) = tt
    after_magic-GoesOn s (done u d) = after_join-GoesOn (
        forward_loop cipher (suc (length d.incoming)) v.ticks
          (forwarder cipher net magic whitelist read_timeout write_timeout v d s))

    after_timeouts-GoesOn :
        (s : Shared) (o : Outcome Duplex RtlTcpError (Unit {0}))
        → GoesOn (after_timeouts cipher net magic whitelist read_timeout write_timeout v s o)
    unfolding after_timeouts
    after_timeouts-GoesOn s (failed e d) = tt
    after_timeouts-GoesOn s (done u d) = after_magic-GoesOn s (convert io (send_all magic) d)

    on_checked-GoesOn :
        (d : Duplex) (s : Shared) (r : Result RtlTcpError (Unit {0}))
        → GoesOn (on_checked cipher net magic whitelist read_timeout write_timeout v d s r)
    unfolding on_checked
    on_checked-GoesOn d s (err e) = tt
    on_checked-GoesOn d s (ok u) =
        after_timeouts-GoesOn s (set_timeouts read_timeout write_timeout d)

    on_accept-GoesOn :
        (s : Shared) (a : Accept)
        → GoesOn (on_accept cipher net magic whitelist read_timeout write_timeout v s a)
    unfolding on_accept
    on_accept-GoesOn s (refused e) =
        if_keeps GoesOn (is_would_block e) (some (done true s))
          (some (failed (network (accept_failed e)) s)) (λ h. refl) (λ h. tt)
    on_accept-GoesOn s (connection d ip) = on_checked-GoesOn d s (check_whitelist net ip whitelist)

    -- Only the flag leads to the shutdown.
    pub master_round-GoesOn :
        (s : Shared)
        → v.should_exit ≡ false
        → GoesOn (master_round cipher net magic whitelist read_timeout write_timeout v s)
    unfolding master_round
    master_round-GoesOn s h =
        if_keeps GoesOn v.should_exit (some (done false s))
          (on_accept cipher net magic whitelist read_timeout write_timeout v s v.accept) (λ up. cc)
          (λ e. on_accept-GoesOn s v.accept)
