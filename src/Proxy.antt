-- ===== src/Proxy.antt =====
-- src/proxy.rs: the connection to the upstream server, with chain detection and nonce exchange.
-- What `TcpStream::connect` gives and what `rand` generates are arguments.
pub mod Agreement
pub mod Plain
pub mod Forward
pub mod Start
pub mod Session
pub mod Masters
use rtltcp.Prelude.{ℕ, Bool, true, false, List, [], ◌∷◌, Option, none, some, ◌==◌, if◌then◌else◌}
use rtltcp.Io.{
  ErrorKind, Result, ok, err, Outcome, done, failed, Action, ◌>>=◌, ◌>>◌, return, convert,
}
use rtltcp.Io.Duplex.{Duplex, recv_exact, send_all, set_read_timeout}
use rtltcp.Error.{
  RtlTcpError, network, io, connect_failed, read_magic_failed, nonce_exchange_failed,
}
use rtltcp.Control.{cmd_chain_detect}
use rtltcp.Encryption.{StreamCipher, nonce_exchange}

abbrev pub probe : List ℕ
probe = cmd_chain_detect ∷ 0x50 ∷ 0x52 ∷ 0x4f ∷ 0x58 ∷ []

-- 30 s; durations are in nanoseconds.
abbrev pub thirty_seconds : ℕ
thirty_seconds = 30_000_000_000

abbrev pub is_ack : List ℕ → Bool
is_ack [] = false
is_ack (b ∷ bs) = b == cmd_chain_detect

-- Anything but a frame that begins with the chain code means a plain upstream.
after_ack : Outcome Duplex ErrorKind (List ℕ) → Outcome Duplex ErrorKind Bool
after_ack (done ack d) =
    if is_ack ack then done true d else (do set_read_timeout thirty_seconds; return false) d
after_ack (failed e d) = (do set_read_timeout thirty_seconds; return false) d

unfoldable pub detect_chain : Action Duplex ErrorKind Bool
unfolding after_ack
detect_chain d = after_ack (recv_exact 5 d)

-- The key with our nonce and the peer's, where the link is to be encrypted.
unfoldable pub exchange_nonces :
    List ℕ → Option (List ℕ) → Bool → Action Duplex RtlTcpError (Option (List ℕ × List ℕ × List ℕ))
exchange_nonces my_nonce (some key) true = do
  (mine, peer) ← convert (λ e. network (nonce_exchange_failed e)) (nonce_exchange my_nonce key)
  return (some (key, mine, peer))
exchange_nonces my_nonce none true = return none
exchange_nonces my_nonce key false = return none

module _ (cipher : StreamCipher) where
  open cipher use {State, new}

  pub record UpstreamConnection : Type 0 where
    pub stream : Duplex
    pub is_chain : Bool
    pub read_cipher : Option State
    pub write_cipher : Option State
    pub magic_packet : List ℕ

  -- The connection but for its stream.
  pub record Terms : Type 0 where
    pub is_chain : Bool
    pub read_cipher : Option State
    pub write_cipher : Option State
    pub magic_packet : List ℕ

  abbrev terms : List ℕ → Bool → Option (List ℕ × List ℕ × List ℕ) → Terms
  terms magic is_chain (some (key, mine, peer)) = record {
    is_chain = is_chain;
    read_cipher = some (new key peer);
    write_cipher = some (new key mine);
    magic_packet = magic;
  }
  terms magic is_chain none = record {
    is_chain = is_chain;
    read_cipher = none;
    write_cipher = none;
    magic_packet = magic;
  }

  unfoldable pub negotiate : List ℕ → Option (List ℕ) → ℕ → Action Duplex RtlTcpError Terms
  negotiate my_nonce key timeout = do
    convert io (set_read_timeout timeout)
    magic ← convert (λ e. network (read_magic_failed e)) (recv_exact 12)
    convert io (send_all probe)
    is_chain ← convert io detect_chain
    encryption_key ← exchange_nonces my_nonce key is_chain
    convert io (set_read_timeout thirty_seconds)
    return (terms magic is_chain encryption_key)

  established : Outcome Duplex RtlTcpError Terms → Result RtlTcpError UpstreamConnection
  established (done t d) = ok (record {
    stream = d;
    is_chain = t.is_chain;
    read_cipher = t.read_cipher;
    write_cipher = t.write_cipher;
    magic_packet = t.magic_packet;
  })
  established (failed e d) = err e

  unfoldable pub connect_upstream :
      Result ErrorKind Duplex → List ℕ → Option (List ℕ) → ℕ → Result RtlTcpError UpstreamConnection
  unfolding established
  connect_upstream (err e) my_nonce key timeout = err (network (connect_failed e))
  connect_upstream (ok d) my_nonce key timeout = established (negotiate my_nonce key timeout d)
