-- ===== src/Acceptor/Slots.antt =====
-- The slots of the slave acceptor of src/main.rs.
use Prim.Native.String.{String}
use rtltcp.Prelude.{
  ℕ, ◌≤◌, ◌<◌, ◌≡◌, refl, sym, append-nil, if_keeps, Bool-cases, inl, inr, List, [], ◌∷◌, ◌++◌,
  length, length-append, All, arith, leb,
}
use rtltcp.Prelude.Loop.{Flow, again, break, state}
use rtltcp.Io.{Result, ok, err}
use rtltcp.Io.Write.{Socket}
use rtltcp.Control.Whitelist.{Addresses, check_whitelist}
use rtltcp.Acceptor.{
  Accept, connection, refused, Round, Acceptor, admit, on_accept, accept_round, accept_loop,
}

module _ (net : Addresses) (magic : List ℕ) (whitelist : List String) (max_slaves : ℕ) where
  -- The slots are counted, no more than `max_slaves` are taken, and each client passed the whitelist.
  pub record Inv (a : Acceptor) : Type 0 where
    pub counted : length a.clients ≡ a.count
    pub bounded : a.count ≤ max_slaves
    pub listed : length a.all_streams ≡ a.count
    pub admitted : All (λ c. check_whitelist net c.0 whitelist ≡ ok tt) a.clients

  All-snoc :
      (P : String × Socket → Type 0) (xs : List (String × Socket)) (x : String × Socket)
      → All P xs
      → P x
      → All P (xs ++ (x ∷ []))
  All-snoc P [] x h p = (p, tt)
  All-snoc P (y ∷ ys) x h p = (h.0, All-snoc P ys x h.1 p)

  admit-Inv :
      (s : Socket) (ip : String) (r : Result rtltcp.Error.RtlTcpError (Unit {0})) (a : Acceptor)
      → check_whitelist net ip whitelist ≡ r
      → Inv a
      → a.count < max_slaves
      → Inv (admit net magic whitelist max_slaves s ip r a)
  unfolding admit
  admit-Inv s ip (err e) a h v lt = v
  admit-Inv s ip (ok u) a h v lt = record {
    counted = omega (arith, length-append a.clients _, v.counted);
    bounded = omega arith;
    listed = omega (arith, length-append a.all_streams _, v.listed);
    admitted = All-snoc _ a.clients _ v.admitted h;
  }

  on_accept-Inv :
      (c : Accept) (a : Acceptor)
      → Inv a
      → a.count < max_slaves
      → Inv (on_accept net magic whitelist max_slaves c a)
  unfolding on_accept
  on_accept-Inv (connection s ip) a v lt =
      admit-Inv s ip (check_whitelist net ip whitelist) a refl v lt
  on_accept-Inv (refused e) a v lt = v

  pub accept_round-Inv :
      (r : Round) (a : Acceptor)
      → Inv a
      → Inv (state (accept_round net magic whitelist max_slaves r a))
  unfolding accept_round
  accept_round-Inv r a v = elim (Bool-cases r.should_exit) [
    | inl t ↦ rw t v
    | inr t ↦ rw t (elim (Bool-cases (leb max_slaves a.count)) [
      | inl full ↦ rw full v
      | inr room ↦ rw room (on_accept-Inv r.accept a v (ground arith))
    ])
  ]

  -- A round puts at most one stream into the vector.
  abbrev pub Grown : Acceptor → Acceptor → Type 0
  Grown a b = (new : List Socket) × (b.all_streams ≡ a.all_streams ++ new) × (length new ≤ 1)

  same-Grown : (a : Acceptor) → Grown a a
  same-Grown a = ([], sym (append-nil a.all_streams), omega arith)

  on_accept-Grown :
      (c : Accept) (a : Acceptor) → Grown a (on_accept net magic whitelist max_slaves c a)
  unfolding on_accept admit
  on_accept-Grown (refused e) a = same-Grown a
  on_accept-Grown (connection s ip) a = go (check_whitelist net ip whitelist)
    where
      go :
          (r : Result rtltcp.Error.RtlTcpError (Unit {0}))
          → Grown a (admit net magic whitelist max_slaves s ip r a)
      go (err e) = same-Grown a
      go (ok u) = (_, refl, omega arith)

  pub accept_round-Grown :
      (r : Round) (a : Acceptor) → Grown a (state (accept_round net magic whitelist max_slaves r a))
  unfolding accept_round
  accept_round-Grown r a =
      if_keeps (λ f. Grown a (state f)) r.should_exit (break a) _ (λ h. same-Grown a)
        (λ h.
          if_keeps (λ f. Grown a (state f)) (leb max_slaves a.count) (again a) _ (λ k. same-Grown a)
            (λ k. on_accept-Grown r.accept a))

  -- The acceptor never has more clients than slots, counts them, and has let in only addresses that
  -- pass the whitelist.
  pub accept_loop-Inv :
      (rs : List Round) (a : Acceptor)
      → Inv a
      → Inv (state (accept_loop net magic whitelist max_slaves rs a))
  unfolding accept_loop
  accept_loop-Inv [] a v = v
  accept_loop-Inv (r ∷ rs) a v =
      go (accept_round net magic whitelist max_slaves r a) (accept_round-Inv r a v)
        (λ b w. accept_loop-Inv rs b w)
    where
      go :
          (f : Flow Acceptor)
          → Inv (state f)
          → ((b : Acceptor) → Inv b → Inv (state (accept_loop net magic whitelist max_slaves rs b)))
          → Inv (
              state {S = Acceptor} (elim f [
                | again b ↦ accept_loop net magic whitelist max_slaves rs b
                | break b ↦ break b
              ]))
      go (again b) w ih = ih b w
      go (break b) w ih = w

  -- A slot is never given back: once all are taken, nobody is let in any more, whoever has left.
  pub accept_loop_full :
      (rs : List Round) (a : Acceptor)
      → max_slaves ≤ a.count
      → state (accept_loop net magic whitelist max_slaves rs a) ≡ a
  unfolding accept_loop accept_round
  accept_loop_full [] a h = refl
  accept_loop_full (r ∷ rs) a h = ground (arith, accept_loop_full rs a h)
