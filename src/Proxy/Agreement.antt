-- ===== src/Proxy/Agreement.antt =====
-- The chain handshake from both sides: src/proxy.rs connects, and the master control thread of
-- src/main.rs answers.
use rtltcp.Prelude.{ℕ, ◌<◌, ◌≡◌, refl, ◌∙◌, Bool, true, List, [], ◌++◌, Option, some, length, arith}
use rtltcp.Io.{ok, done, Outcome, convert, convert-done, return, >>=-done, >>-done, ◌>>=◌, ◌>>◌}
use rtltcp.Io.Read.{Reader, sending, read_exact-append}
use rtltcp.Io.Duplex.{
  Duplex, recv_exact, recv_exact_done, send_all, send_all_whole, set_read_timeout,
}
use rtltcp.Error.{RtlTcpError, io}
use rtltcp.Encryption.{StreamCipher, nonce_exchange, server_nonce_exchange}
use rtltcp.Server.{Controller}
use rtltcp.Server.Thread.{Tick, Thread}
use rtltcp.Server.Thread.Single.{acknowledge, chain_detect_ack}
use rtltcp.Server.Thread.Master.{Session, on_chain_detect}
use rtltcp.Proxy.{
  UpstreamConnection, Terms, terms, thirty_seconds, probe, detect_chain, exchange_nonces, negotiate,
  connect_upstream,
}

abbrev pub link : Reader → List ℕ → Duplex
link r sent = record { incoming = r; outgoing = record { sent = sent; faults = [] } }

-- The next `n` bytes that arrive.
pub recv_bytes :
    (n : ℕ) (bs : List ℕ) (r : Reader) (sent : List ℕ)
    → length bs ≡ n
    → recv_exact n (link (sending bs ++ r) sent) ≡ done bs (link r sent)
recv_bytes n bs r sent e =
    recv_exact_done n (link (sending bs ++ r) sent) bs r (rw (← e) (read_exact-append bs r))

pub server_exchange :
    (mine peer key : List ℕ) (r : Reader) (sent : List ℕ)
    → length peer ≡ 12
    → server_nonce_exchange mine key (link (sending peer ++ r) sent)
      ≡ done (mine, peer) (link r (sent ++ mine))
unfolding server_nonce_exchange
server_exchange mine peer key r sent e =
    >>=-done (recv_exact 12) _ (recv_bytes 12 peer r sent e)
    ∙ >>-done (send_all mine) _ (send_all_whole mine r sent)

client_exchange :
    (mine peer key : List ℕ) (r : Reader) (sent : List ℕ)
    → length peer ≡ 12
    → nonce_exchange mine key (link (sending peer ++ r) sent)
      ≡ done (mine, peer) (link r (sent ++ mine))
unfolding nonce_exchange
client_exchange mine peer key r sent e =
    >>-done (send_all mine) _ (send_all_whole mine (sending peer ++ r) sent)
    ∙ >>=-done (recv_exact 12) _ (recv_bytes 12 peer r (sent ++ mine) e)

pub detect_acked :
    (r : Reader) (sent : List ℕ)
    → detect_chain (link (sending chain_detect_ack ++ r) sent) ≡ done true (link r sent)
unfolding detect_chain
detect_acked r sent = rw (recv_bytes 5 chain_detect_ack r sent refl)

pub timeout_set : (timeout : ℕ) (d : Duplex) → 0 < timeout → set_read_timeout timeout d ≡ done tt d
unfolding set_read_timeout
timeout_set timeout d pos = ground arith

exchange_answered :
    (key mine peer : List ℕ) (r : Reader) (sent : List ℕ)
    → length peer ≡ 12
    → exchange_nonces mine (some key) true (link (sending peer ++ r) sent)
      ≡ done (some (key, mine, peer)) (link r (sent ++ mine))
unfolding exchange_nonces
exchange_answered key mine peer r sent lp =
    >>=-done (convert _ (nonce_exchange mine key)) _
      (convert-done _ (nonce_exchange mine key) (client_exchange mine peer key r sent lp))

module _ (cipher : StreamCipher) where
  open cipher use {State, new}

  abbrev pub connection :
      Bool → Option State → Option State → List ℕ → Reader → List ℕ → UpstreamConnection cipher
  connection chain reads writes magic r sent = record {
    stream = link r sent;
    is_chain = chain;
    read_cipher = reads;
    write_cipher = writes;
    magic_packet = magic;
  }

  -- The first three steps are the same with every upstream that sends its magic packet.
  pub negotiate_start :
      (key : Option (List ℕ)) (mine magic : List ℕ) (timeout : ℕ) (r : Reader) (sent : List ℕ)
      {o : Outcome Duplex RtlTcpError (Terms cipher)}
      → 0 < timeout
      → length magic ≡ 12
      → (do
        is_chain ← convert io detect_chain
        encryption_key ← exchange_nonces mine key is_chain
        convert io (set_read_timeout thirty_seconds)
        return (terms cipher magic is_chain encryption_key))
          (link r (sent ++ probe))
        ≡ o
      → negotiate cipher mine key timeout (link (sending magic ++ r) sent) ≡ o
  unfolding negotiate
  negotiate_start key mine magic timeout r sent pos lm rest =
      >>-done (convert io (set_read_timeout timeout)) _ (
        convert-done io (set_read_timeout timeout)
          (timeout_set timeout (link (sending magic ++ r) sent) pos))
      ∙ >>=-done (convert _ (recv_exact 12)) _
          (convert-done _ (recv_exact 12) (recv_bytes 12 magic r sent lm))
      ∙ >>-done (convert io (send_all probe)) _
          (convert-done io (send_all probe) (send_all_whole probe r sent))
      ∙ rest

  pub connect_chain :
      (key mine peer magic : List ℕ) (timeout : ℕ) (r : Reader) (sent : List ℕ)
      → 0 < timeout
      → length magic ≡ 12
      → length peer ≡ 12
      → connect_upstream cipher
          (ok (link (sending magic ++ (sending chain_detect_ack ++ (sending peer ++ r))) sent))
          mine
          (some key)
          timeout
        ≡ ok (
            connection true
              (some (new key peer))
              (some (new key mine))
              magic
              r
              ((sent ++ probe) ++ mine))
  unfolding connect_upstream
  connect_chain key mine peer magic timeout r sent pos lm lp = rw (
      negotiate_start (some key) mine magic timeout
        (sending chain_detect_ack ++ (sending peer ++ r)) sent pos lm
        (>>=-done (convert io detect_chain) _
            (convert-done io detect_chain (detect_acked (sending peer ++ r) (sent ++ probe)))
          ∙ >>=-done (exchange_nonces mine (some key) true) _
              (exchange_answered key mine peer r (sent ++ probe) lp)
          ∙ >>-done (convert io (set_read_timeout thirty_seconds)) _ (
              convert-done io (set_read_timeout thirty_seconds)
                (timeout_set thirty_seconds (link r ((sent ++ probe) ++ mine)) (omega arith)))))

-- The two sides of a chain with a key, each given what the other sends: the server answers the
-- probe and our nonce with its acknowledgement and its nonce, the proxy takes the link for a chain,
-- and each side's cipher for writing is the other's for reading.
pub chain_agreement :
    (device : Controller) (cipher : StreamCipher) (key mine magic : List ℕ) (timeout : ℕ)
    (tick : Tick) (s : Thread device.Handle (Session cipher.State)) (r r' : Reader)
    (sent sent' : List ℕ)
    → 0 < timeout
    → length magic ≡ 12
    → length mine ≡ 12
    → length tick.nonce ≡ 12
    → s.stream ≡ link (sending mine ++ r) sent
    → let t = on_chain_detect device cipher (some key) tick s in
      (u : UpstreamConnection cipher) × (t.stream
        ≡ link r ((sent ++ chain_detect_ack) ++ tick.nonce))
      × (connect_upstream cipher
            (ok (
              link
                (sending magic ++ (sending chain_detect_ack ++ (sending tick.nonce ++ r')))
                sent'))
            mine
            (some key)
            timeout
          ≡ ok u)
      × (u.stream ≡ link r' ((sent' ++ probe) ++ mine))
      × (u.is_chain ≡ true)
      × (u.magic_packet ≡ magic)
      × (u.write_cipher ≡ some (cipher.new key mine))
      × (t.session.read_cipher ≡ u.write_cipher)
      × (t.session.write_cipher ≡ u.read_cipher)
unfolding on_chain_detect acknowledge
chain_agreement device cipher key mine magic timeout tick s r r' sent sent' pos lm lmine ln e = (
  connection cipher true (some (cipher.new key tick.nonce)) (some (cipher.new key mine)) magic r'
      ((sent' ++ probe) ++ mine),
  rw (
    e,
    send_all_whole chain_detect_ack (sending mine ++ r) sent,
    server_exchange tick.nonce mine key r (sent ++ chain_detect_ack) lmine,
  ),
  connect_chain cipher key mine tick.nonce magic timeout r' sent' pos lm ln,
  refl,
  refl,
  refl,
  refl,
  rw (
    e,
    send_all_whole chain_detect_ack (sending mine ++ r) sent,
    server_exchange tick.nonce mine key r (sent ++ chain_detect_ack) lmine,
  ),
  rw (
    e,
    send_all_whole chain_detect_ack (sending mine ++ r) sent,
    server_exchange tick.nonce mine key r (sent ++ chain_detect_ack) lmine,
  ),
)
