-- ===== src/Control/Whitelist.antt =====
-- The IP whitelist of src/control.rs. The address types of the standard library and of the crate
-- ipnet are a parameter: their parsers, the canonical form and the membership test.
use Prim.Native.String.{String}
use rtltcp.Prelude.{
  ◌≡◌, ◌↔◌, refl, ◌⊎◌, inl, inr, Bool, true, false, List, [], ◌∷◌, Option, none, some, arith,
  Bool-cases, Option-cases, if◌then◌else◌,
}
use rtltcp.Io.{Result, ok, err}
use rtltcp.Error.{RtlTcpError, network, not_in_whitelist}

pub record Addresses : Type 1 where
  pub IpAddr : Type 0
  pub IpNet : Type 0
  pub parse_ip : String → Option IpAddr
  pub parse_net : String → Option IpNet
  pub to_canonical : IpAddr → IpAddr
  pub contains : IpNet → IpAddr → Bool

abbrev pub is_empty {ℓ} : {A : Type ℓ} → List A → Bool
is_empty [] = true
is_empty (x ∷ xs) = false

-- Some element of a list has the property.
abbrev pub Any {ℓ} : {A : Type ℓ} → (A → Type 0) → List A → Type 0
Any P [] = ⊥
Any P (x ∷ xs) = P x ⊎ Any P xs

module _ (net : Addresses) where
  open net use {IpAddr, IpNet, parse_ip, parse_net, to_canonical, contains}

  entry_contains : IpAddr → Option IpNet → Bool
  entry_contains ip (some net_of) = contains net_of ip
  entry_contains ip none = false

  -- The loop over the entries, with its early return. An entry that is no CIDR is passed over.
  any_contains : IpAddr → List String → Bool
  any_contains ip [] = false
  any_contains ip (cidr ∷ rest) =
      if entry_contains ip (parse_net cidr) then true else any_contains ip rest

  unfoldable pub is_ip_in_whitelist : String → List String → Bool
  unfolding any_contains entry_contains
  is_ip_in_whitelist client_ip whitelist = elim (parse_ip client_ip) [
    | some ip ↦ any_contains (to_canonical ip) whitelist
    | none ↦ false
  ]

  unfoldable pub check_whitelist : String → List String → Result RtlTcpError (Unit {0})
  check_whitelist client_ip whitelist =
      if is_empty whitelist
      then ok tt
      else if is_ip_in_whitelist client_ip whitelist
      then ok tt
      else err (network not_in_whitelist)

  -- The entry is a network, and the address lies in it.
  abbrev pub Admits : IpAddr → String → Type 0
  Admits ip cidr = (n : IpNet) × (parse_net cidr ≡ some n) × (contains n ip ≡ true)

  entry_contains→Admits :
      (ip : IpAddr) (cidr : String) → entry_contains ip (parse_net cidr) ≡ true → Admits ip cidr
  unfolding entry_contains
  entry_contains→Admits ip cidr h = elim (Option-cases (parse_net cidr)) [
    | inl e ↦ cc (rw e at h)
    | inr (n, e) ↦ (n, e, rw e at h)
  ]

  Admits→entry_contains :
      (ip : IpAddr) (cidr : String) → Admits ip cidr → entry_contains ip (parse_net cidr) ≡ true
  unfolding entry_contains
  Admits→entry_contains ip cidr (n, e, c) = rw (e, entry_contains) c

  Any-contains→Any : (ip : IpAddr) (l : List String) → any_contains ip l ≡ true → Any (Admits ip) l
  unfolding any_contains
  Any-contains→Any ip [] h = cc
  Any-contains→Any ip (cidr ∷ rest) h = elim (Bool-cases (entry_contains ip (parse_net cidr))) [
    | inl hit ↦ inl (entry_contains→Admits ip cidr hit)
    | inr miss ↦ inr (Any-contains→Any ip rest (rw miss at h))
  ]

  Any→any_contains : (ip : IpAddr) (l : List String) → Any (Admits ip) l → any_contains ip l ≡ true
  unfolding any_contains
  Any→any_contains ip [] h = absurd h
  Any→any_contains ip (cidr ∷ rest) (inl a) = rw (Admits→entry_contains ip cidr a)
  Any→any_contains ip (cidr ∷ rest) (inr r) = ground (arith, Any→any_contains ip rest r)

  -- An address that parses passes the check exactly when the whitelist is empty or some entry of
  -- it is a network that contains the address in its canonical form; entries that are no network
  -- never matter.
  pub check_whitelist_iff :
      (client_ip : String) (whitelist : List String) (ip : IpAddr)
      → parse_ip client_ip ≡ some ip
      → (check_whitelist client_ip whitelist ≡ ok tt)
        ↔ ((whitelist ≡ []) ⊎ Any (Admits (to_canonical ip)) whitelist)
  unfolding check_whitelist is_ip_in_whitelist
  check_whitelist_iff client_ip [] ip e = (λ _. inl refl, λ _. refl)
  check_whitelist_iff client_ip (c ∷ cs) ip e = (forward, backward)
    where
      forward :
          check_whitelist client_ip (c ∷ cs) ≡ ok tt
          → (c ∷ cs ≡ []) ⊎ Any (Admits (to_canonical ip)) (c ∷ cs)
      forward h = elim (Bool-cases (any_contains (to_canonical ip) (c ∷ cs))) [
        | inl t ↦ inr (Any-contains→Any _ (c ∷ cs) t)
        | inr f ↦ cc (rw (e, is_ip_in_whitelist, f) at h)
      ]

      backward :
          (c ∷ cs ≡ []) ⊎ Any (Admits (to_canonical ip)) (c ∷ cs)
          → check_whitelist client_ip (c ∷ cs) ≡ ok tt
      backward (inl n) = cc
      backward (inr a) = rw (e, is_ip_in_whitelist, Any→any_contains _ (c ∷ cs) a)

  -- A text that is no address passes only an empty whitelist.
  pub check_whitelist_unparsed :
      (client_ip c : String) (cs : List String)
      → parse_ip client_ip ≡ none
      → check_whitelist client_ip (c ∷ cs) ≡ err (network not_in_whitelist)
  unfolding check_whitelist is_ip_in_whitelist
  check_whitelist_unparsed client_ip c cs e = rw (e, is_ip_in_whitelist)
