-- ===== src/ServeMulti/Accepting.antt =====
-- The steps of the acceptor of slaves in `run_serve_multi` of src/main.rs.
use rtltcp.Prelude.{ℕ, ◌≡◌, refl, Bool, true, false, if_keeps, List, Option}
use rtltcp.Control.{magic_packet}
use rtltcp.Control.Whitelist.{Addresses}
use rtltcp.Args.{Args}
use rtltcp.Encryption.{StreamCipher}
use rtltcp.Acceptor as Slaves
use rtltcp.Server.{Controller}
use rtltcp.ServeMulti.{Running, after_slave, on_acceptor, on_slave}

module _ (device : Controller) (cipher : StreamCipher) (net : Addresses) (args : Args)
    (key : Option (List ℕ)) where
  -- A property that each kind of step keeps.
  pub on_slave_keeps :
      (P : Running device cipher net args → Type 0) (r : Slaves.Round)
      (s : Running device cipher net args)
      → P s
      → (s.looked ≡ false → s.should_exit ≡ true → P (record s { acceptor_ended = true }))
      → (s.looked ≡ false → s.should_exit ≡ false → P (record s { looked = true }))
      → (s.looked ≡ true
          → P (
              after_slave device cipher net args key
                (record s { looked = false })
                (Slaves.accept_round net magic_packet args.whitelist args.max_slaves
                  (record r { should_exit = false })
                  s.slaves)))
      → P (on_slave device cipher net args key r s)
  unfolding on_slave on_acceptor
  on_slave_keeps P r s idle ends looks serves =
      if_keeps P s.acceptor_ended s (on_acceptor device cipher net args key s.looked r s)
        (λ e. idle) (λ e. go s.looked refl)
    where
      go : (b : Bool) → s.looked ≡ b → P (on_acceptor device cipher net args key b r s)
      go false at =
          if_keeps P s.should_exit (record s { acceptor_ended = true }) (record s { looked = true })
            (ends at) (looks at)
      go true at = serves at
