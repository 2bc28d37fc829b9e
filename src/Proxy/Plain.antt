-- ===== src/Proxy/Plain.antt =====
-- Upstreams that src/proxy.rs does not take for the other end of a chain.
use rtltcp.Prelude.{
  ℕ, ◌<◌, ◌≤◌, ◌≡◌, refl, ◌∙◌, false, List, [], ◌∷◌, ◌++◌, Option, none, some, length, arith,
}
use rtltcp.Io.{ErrorKind, ok, done, convert, convert-done, >>=-done, >>-done}
use rtltcp.Io.Read.{Reader, fail, sending, read_exact_interrupted}
use rtltcp.Io.Duplex.{Duplex, recv_exact_failed, set_read_timeout}
use rtltcp.Error.{io}
use rtltcp.Encryption.{StreamCipher}
use rtltcp.Proxy.{
  UpstreamConnection, thirty_seconds, probe, detect_chain, exchange_nonces, connect_upstream,
}
use rtltcp.Proxy.Agreement.{link, recv_bytes, timeout_set, negotiate_start}
use rtltcp.Proxy.{is_ack}
use rtltcp.Prelude.{drop}

exchange_plain :
    (mine : List ℕ) (key : Option (List ℕ)) (d : Duplex)
    → exchange_nonces mine key false d ≡ done none d
unfolding exchange_nonces
exchange_plain mine none d = refl
exchange_plain mine (some key) d = refl

detect_silent :
    (e : ErrorKind) (r : Reader) (sent : List ℕ)
    → detect_chain (link (fail e ∷ r) sent) ≡ done false (link r sent)
unfolding detect_chain set_read_timeout
detect_silent e r sent = rw (
    recv_exact_failed 5 (link (fail e ∷ r) sent) e r
      (read_exact_interrupted 5 [] e r (omega arith)))

detect_other :
    (bs : List ℕ) (r : Reader) (sent : List ℕ)
    → 5 ≤ length bs
    → is_ack bs ≡ false
    → detect_chain (link (sending bs ++ r) sent) ≡ done false (link (sending (drop 5 bs) ++ r) sent)
unfolding detect_chain set_read_timeout
detect_other (a ∷ b ∷ c ∷ d ∷ e ∷ bs) r sent enough other =
    rw (recv_bytes 5 (a ∷ b ∷ c ∷ d ∷ e ∷ []) (sending bs ++ r) sent refl, other)
detect_other [] r sent enough other = absurd (omega arith)
detect_other (a ∷ []) r sent enough other = absurd (omega arith)
detect_other (a ∷ b ∷ []) r sent enough other = absurd (omega arith)
detect_other (a ∷ b ∷ c ∷ []) r sent enough other = absurd (omega arith)
detect_other (a ∷ b ∷ c ∷ d ∷ []) r sent enough other = absurd (omega arith)

module _ (cipher : StreamCipher) where
  open cipher use {State, new}

  abbrev plain : List ℕ → Reader → List ℕ → UpstreamConnection cipher
  plain magic r sent = record {
    stream = link r sent;
    is_chain = false;
    read_cipher = none;
    write_cipher = none;
    magic_packet = magic;
  }

  -- What is not taken for an acknowledgement is skipped.
  connect_undetected :
      (key : Option (List ℕ)) (mine magic : List ℕ) (timeout : ℕ) (w r : Reader) (sent : List ℕ)
      → 0 < timeout
      → length magic ≡ 12
      → detect_chain (link w (sent ++ probe)) ≡ done false (link r (sent ++ probe))
      → connect_upstream cipher (ok (link (sending magic ++ w) sent)) mine key timeout
        ≡ ok (plain magic r (sent ++ probe))
  unfolding connect_upstream
  connect_undetected key mine magic timeout w r sent pos lm detected = rw (
      negotiate_start cipher key mine magic timeout w sent pos lm (
        >>=-done (convert io detect_chain) _ (convert-done io detect_chain detected)
        ∙ >>=-done (exchange_nonces mine key false) _
            (exchange_plain mine key (link r (sent ++ probe)))
        ∙ >>-done (convert io (set_read_timeout thirty_seconds)) _ (
            convert-done io (set_read_timeout thirty_seconds)
              (timeout_set thirty_seconds (link r (sent ++ probe)) (omega arith)))))

  -- An upstream that does not answer the probe is taken for a plain server, with a key or without:
  -- no cipher is set up, nothing more is sent, and its magic packet is kept.
  pub connect_plain :
      (key : Option (List ℕ)) (mine magic : List ℕ) (timeout : ℕ) (e : ErrorKind) (r : Reader)
      (sent : List ℕ)
      → 0 < timeout
      → length magic ≡ 12
      → connect_upstream cipher (ok (link (sending magic ++ (fail e ∷ r)) sent)) mine key timeout
        ≡ ok (plain magic r (sent ++ probe))
  connect_plain key mine magic timeout e r sent pos lm =
      connect_undetected key mine magic timeout (fail e ∷ r) r sent pos lm
        (detect_silent e r (sent ++ probe))

  -- From an upstream that sends samples before it answers the probe, and whose first sample is not
  -- the code of an acknowledgement, five bytes of samples are lost: the proxy takes it for a plain
  -- server, with a key or without, and what is left on the stream to be relayed begins with the sixth
  -- byte.
  pub connect_streaming :
      (key : Option (List ℕ)) (mine magic samples : List ℕ) (timeout : ℕ) (r : Reader)
      (sent : List ℕ)
      → 0 < timeout
      → length magic ≡ 12
      → 5 ≤ length samples
      → is_ack samples ≡ false
      → connect_upstream cipher
          (ok (link (sending magic ++ (sending samples ++ r)) sent))
          mine
          key
          timeout
        ≡ ok (plain magic (sending (drop 5 samples) ++ r) (sent ++ probe))
  connect_streaming key mine magic samples timeout r sent pos lm enough other =
      connect_undetected key mine magic timeout (sending samples ++ r)
        (sending (drop 5 samples) ++ r) sent pos lm
        (detect_other samples r (sent ++ probe) enough other)
