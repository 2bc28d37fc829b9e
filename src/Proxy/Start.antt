-- ===== src/Proxy/Start.antt =====
-- How `run_proxy_multi` of src/main.rs gets to its upstream server: the address, the key and the
-- connection. `rsplit_once`, the parsing of a port, the crate hex, the file system, connecting and
-- the random nonce are arguments; the signal handler and the binding of ports are in ProxyMulti.
use Prim.Native.String.{String}
use rtltcp.Prelude.{ℕ, ◌≡◌, ◌⊎◌, inl, inr, refl, List, Option, none, some, length}
use rtltcp.Io.{ErrorKind, Result, ok, err}
use rtltcp.Io.Duplex.{Duplex}
use rtltcp.Error.{RtlTcpError, config, upstream_required, invalid_upstream, invalid_upstream_port}
use rtltcp.Args.{Args, parse_encryption_key}
use rtltcp.Args.Validation.{parse_encryption_key_lem}
use rtltcp.Encryption.{StreamCipher}
use rtltcp.Proxy.{UpstreamConnection, connect_upstream}

-- 500 ms.
abbrev probe_timeout : ℕ
probe_timeout = 500_000_000

module _ (rsplit_once : String → Option (String × String)) (parse_port : String → Option ℕ)
    (hex_decode : String → Option (List ℕ)) (read_file : String → Result ErrorKind (List ℕ))
    (cipher : StreamCipher) (connect : String → ℕ → Result ErrorKind Duplex)
    (my_nonce : List ℕ) where
  with_key :
      String
      → ℕ
      → Result RtlTcpError (Option (List ℕ))
      → Result RtlTcpError (UpstreamConnection cipher)
  with_key host port (err e) = err e
  with_key host port (ok key) =
      connect_upstream cipher (connect host port) my_nonce key probe_timeout

  with_port : Args → String → Option ℕ → Result RtlTcpError (UpstreamConnection cipher)
  unfolding with_key
  with_port args host none = err (config invalid_upstream_port)
  with_port args host (some port) =
      with_key host port (parse_encryption_key hex_decode read_file args)

  with_parts : Args → Option (String × String) → Result RtlTcpError (UpstreamConnection cipher)
  unfolding with_port
  with_parts args none = err (config invalid_upstream)
  with_parts args (some (host, port)) = with_port args host (parse_port port)

  with_upstream : Args → Option String → Result RtlTcpError (UpstreamConnection cipher)
  unfolding with_parts
  with_upstream args none = err (config upstream_required)
  with_upstream args (some upstream) = with_parts args (rsplit_once upstream)

  unfoldable pub open_upstream : Args → Result RtlTcpError (UpstreamConnection cipher)
  unfolding with_upstream
  open_upstream args = with_upstream args args.upstream

  -- The way to a connection: the address that was given, its two parts, the port, and the key.
  pub record Opened (args : Args) (u : UpstreamConnection cipher) : Type 0 where
    pub upstream : String
    pub host : String
    pub port_text : String
    pub port : ℕ
    pub key : Option (List ℕ)
    pub given : args.upstream ≡ some upstream
    pub split : rsplit_once upstream ≡ some (host, port_text)
    pub parsed : parse_port port_text ≡ some port
    pub keyed :
        ((key ≡ none) × (args.key ≡ none) × (args.key_file ≡ none))
        ⊎ ((bytes : List ℕ) × (key ≡ some bytes) × (length bytes ≡ 32))
    pub connected : connect_upstream cipher (connect host port) my_nonce key probe_timeout ≡ ok u

  -- A proxy that has its connection was given an upstream address with a host and a port that parse,
  -- has a key of 32 bytes, or none and no option for one, and connected with these.
  pub open_upstream-Opened :
      (args : Args) (u : UpstreamConnection cipher) → open_upstream args ≡ ok u → Opened args u
  unfolding open_upstream
  open_upstream-Opened args u h = from_option args.upstream refl h
    where
      from_key :
          (a host t : String) (port : ℕ) (k : Result RtlTcpError (Option (List ℕ)))
          → args.upstream ≡ some a
          → rsplit_once a ≡ some (host, t)
          → parse_port t ≡ some port
          → parse_encryption_key hex_decode read_file args ≡ k
          → with_key host port k ≡ ok u
          → Opened args u
      from_key a host t port (err e) ga sa pa ka h = cc
      from_key a host t port (ok key) ga sa pa ka h = record {
        upstream = a;
        host = host;
        port_text = t;
        port = port;
        key = key;
        given = ga;
        split = sa;
        parsed = pa;
        keyed = elim (parse_encryption_key_lem hex_decode read_file args key ka) [
          | inl n ↦ inl n
          | inr s ↦ inr (s.0, s.1, s.2)
        ];
        connected = h;
      }

      from_port :
          (a host t : String) (p : Option ℕ)
          → args.upstream ≡ some a
          → rsplit_once a ≡ some (host, t)
          → parse_port t ≡ p
          → with_port args host p ≡ ok u
          → Opened args u
      from_port a host t none ga sa pa h = cc
      from_port a host t (some port) ga sa pa h = from_key a host t port _ ga sa pa refl h

      from_parts :
          (a : String) (x : Option (String × String))
          → args.upstream ≡ some a
          → rsplit_once a ≡ x
          → with_parts args x ≡ ok u
          → Opened args u
      from_parts a none ga sa h = cc
      from_parts a (some (host, t)) ga sa h = from_port a host t (parse_port t) ga sa refl h

      from_option :
          (x : Option String) → args.upstream ≡ x → with_upstream args x ≡ ok u → Opened args u
      from_option none ga h = cc
      from_option (some a) ga h = from_parts a (rsplit_once a) ga refl h
