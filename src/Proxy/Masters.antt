-- ===== src/Proxy/Masters.antt =====
-- The accept loop of `run_proxy_multi` of src/main.rs: the masters that come one after another, each
-- with the thread that forwards its commands. The upstream stream and its cipher outlive them. What
-- `accept` would give, and what the thread finds, are arguments of each round.
pub mod InStep
pub mod Flags
use Prim.Native.String.{String}
use rtltcp.Prelude.{
  ℕ, suc, ◌≡◌, refl, ◌∙◌, Bool, true, false, not, Bool-cases, inl, inr, List, [], ◌∷◌, Option, none,
  some, length, arith, if◌then◌else◌,
}
use rtltcp.Io.{Result, ok, err, Outcome, done, failed, convert}
use rtltcp.Io.Write.{Socket}
use rtltcp.Io.Duplex.{Duplex, send_all}
use rtltcp.Error.{RtlTcpError, network, io, accept_failed}
use rtltcp.Control.{Mutex, command_rate_limit_interval}
use rtltcp.Control.RateLimiter
use rtltcp.Control.Whitelist.{Addresses, check_whitelist}
use rtltcp.Encryption.{StreamCipher}
use rtltcp.Server.Masters.{Accept, connection, refused, Visit, is_would_block, set_timeouts}
use rtltcp.Proxy.Forward.{Forwarder, forward_loop}
use rtltcp.Proxy.Forward.Ending.{forward_loop_ends}

module _ (cipher : StreamCipher) (net : Addresses) (magic : List ℕ) (whitelist : List String)
    (read_timeout write_timeout : ℕ) where
  open cipher use {State}

  -- What the masters share: the cipher and the locked stream to the upstream server.
  pub record Proxied : Type 0 where
    pub write_cipher : Option State
    pub upstream : Mutex Socket

  -- `true` for another round, `false` for the shutdown; no outcome if the fuel of a thread ran out.
  abbrev pub Served : Type 0
  Served = Option (Outcome Proxied RtlTcpError Bool)

  -- The limiter is new for each master.
  forwarder : Visit → Duplex → Proxied → Forwarder cipher
  forwarder v d s = record {
    master = d.incoming;
    rate_limiter = RateLimiter.new command_rate_limit_interval v.started v.started_later;
    write_cipher = s.write_cipher;
    upstream = s.upstream;
  }

  after_join : Visit → Option (Forwarder cipher) → Served
  after_join v none = none
  after_join v (some f) =
      some
        (done (not v.exit_after) (record { write_cipher = f.write_cipher; upstream = f.upstream }))

  -- One round of the thread for each arrival and one more.
  after_magic : Visit → Proxied → Outcome Duplex RtlTcpError (Unit {0}) → Served
  unfolding after_join forwarder
  after_magic v s (failed e d) = some (failed e s)
  after_magic v s (done u d) =
      after_join v (forward_loop cipher (suc (length d.incoming)) v.ticks (forwarder v d s))

  after_timeouts : Visit → Proxied → Outcome Duplex RtlTcpError (Unit {0}) → Served
  unfolding after_magic
  after_timeouts v s (failed e d) = some (failed e s)
  after_timeouts v s (done u d) = after_magic v s (convert io (send_all magic) d)

  on_checked : Visit → Duplex → Proxied → Result RtlTcpError (Unit {0}) → Served
  unfolding after_timeouts
  on_checked v d s (err e) = some (failed e s)
  on_checked v d s (ok u) = after_timeouts v s (set_timeouts read_timeout write_timeout d)

  on_accept : Visit → Proxied → Accept → Served
  unfolding on_checked
  on_accept v s (refused e) =
      if is_would_block e then some (done true s) else some (failed (network (accept_failed e)) s)
  on_accept v s (connection d ip) = on_checked v d s (check_whitelist net ip whitelist)

  unfoldable pub master_round : Visit → Proxied → Served
  unfolding on_accept
  master_round v s = if v.should_exit then some (done false s) else on_accept v s v.accept

  unfoldable pub masters_loop : List Visit → Proxied → Served
  unfolding master_round
  masters_loop [] s = some (done true s)
  masters_loop (v ∷ vs) s = elim (master_round v s) [
    | none ↦ none
    | some o ↦ elim o [
      | done b s' ↦ let rest = masters_loop vs s' in if b then rest else some (done false s')
      | failed e s' ↦ some (failed e s')
    ]
  ]

  abbrev pub left : Outcome Proxied RtlTcpError Bool → Proxied
  left (done b s) = s
  left (failed e s) = s

  abbrev Kept : Bool → Served → Type 0
  Kept p o =
      (r : Outcome Proxied RtlTcpError Bool) × (o ≡ some r) × ((left r).upstream.poisoned ≡ p)

  after_magic-Kept :
      (v : Visit) (s : Proxied) (o : Outcome Duplex RtlTcpError (Unit {0}))
      → Kept s.upstream.poisoned (after_magic v s o)
  unfolding after_magic
  after_magic-Kept v s (failed e d) = (failed e s, refl, refl)
  after_magic-Kept v s (done u d) =
      let (f, run, same) =
        forward_loop_ends cipher v.ticks (suc (length d.incoming)) (forwarder v d s)
          (omega arith) in
      (
        done (not v.exit_after) (record { write_cipher = f.write_cipher; upstream = f.upstream }),
        rw run refl,
        same,
      )

  after_timeouts-Kept :
      (v : Visit) (s : Proxied) (o : Outcome Duplex RtlTcpError (Unit {0}))
      → Kept s.upstream.poisoned (after_timeouts v s o)
  unfolding after_timeouts
  after_timeouts-Kept v s (failed e d) = (failed e s, refl, refl)
  after_timeouts-Kept v s (done u d) = after_magic-Kept v s (convert io (send_all magic) d)

  on_accept-Kept :
      (v : Visit) (s : Proxied) (a : Accept) → Kept s.upstream.poisoned (on_accept v s a)
  unfolding on_accept
  on_accept-Kept v s (refused e) = elim (Bool-cases (is_would_block e)) [
    | inl t ↦ rw t (done true s, refl, refl)
    | inr t ↦ rw t (failed (network (accept_failed e)) s, refl, refl)
  ]
  on_accept-Kept v s (connection d ip) = go (check_whitelist net ip whitelist)
    where
      go : (r : Result RtlTcpError (Unit {0})) → Kept s.upstream.poisoned (on_checked v d s r)
      go (err e) = (failed e s, refl, refl)
      go (ok u) = after_timeouts-Kept v s (set_timeouts read_timeout write_timeout d)

  master_round-Kept : (v : Visit) (s : Proxied) → Kept s.upstream.poisoned (master_round v s)
  unfolding master_round
  master_round-Kept v s = elim (Bool-cases v.should_exit) [
    | inl t ↦ rw t (done false s, refl, refl)
    | inr t ↦ rw t (on_accept-Kept v s v.accept)
  ]

  -- Whoever connects, one after another, whatever each sends and whatever the upstream stream
  -- answers: each forwarding thread ends within one round for each arrival and one more, so the
  -- accept loop gets through its rounds or ends; and the lock on the upstream stream stays as it was.
  pub masters_loop_ends :
      (vs : List Visit) (s : Proxied)
      → (r : Outcome Proxied RtlTcpError Bool) × (masters_loop vs s ≡ some r)
        × ((left r).upstream.poisoned ≡ s.upstream.poisoned)
  unfolding masters_loop
  masters_loop_ends [] s = (done true s, refl, refl)
  masters_loop_ends (v ∷ vs) s =
      let (r, run, same) = master_round-Kept v s in
      rw (masters_loop, run) (go s.upstream.poisoned r same (λ s'. masters_loop_ends vs s'))
    where
      go :
          (p : Bool) (o : Outcome Proxied RtlTcpError Bool)
          → (left o).upstream.poisoned ≡ p
          → ((s' : Proxied) → Kept s'.upstream.poisoned (masters_loop vs s'))
          → Kept p (elim o [
            | done b s' ↦ let rest = masters_loop vs s' in if b then rest else some (done false s')
            | failed e s' ↦ some (failed e s')
          ])
      go p (done true s') same ih = let (r, run, k) = ih s' in (r, run, k ∙ same)
      go p (done false s') same ih = (done false s', refl, same)
      go p (failed e s') same ih = (failed e s', refl, same)
