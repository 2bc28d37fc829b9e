-- ===== src/Proxy/Session.antt =====
-- A whole session of `run_proxy_multi` with a server of `run_serve_multi`, of src/main.rs: the probe
-- and the nonces, and then the commands of all masters of the proxy.
use Prim.Native.String.{String}
use rtltcp.Prelude.{
  ℕ, zero, suc, ◌+◌, ◌<◌, ◌≡◌, refl, ap, ◌∙◌, true, false, List, [], ◌∷◌, ◌++◌, map, map-append,
  append_assoc, none, some, length, All, arith, not, if◌then◌else◌, Bool,
}
use rtltcp.Prelude.Loop.{again, break, loop_again}
use rtltcp.Io.{ok, done}
use rtltcp.Io.Read.{Reader, byte, sending}
use rtltcp.Io.Write.{Socket}
use rtltcp.Io.Duplex.{send_all_whole, recv_exact_done}
use rtltcp.Control.RateLimiter.{RateLimiter, check}
use rtltcp.Control.Whitelist.{Addresses}
use rtltcp.Encryption.{StreamCipher, CipherLaws}
use rtltcp.Server.{Controller, Board, match_command}
use rtltcp.Server.Commands.{Command, Encodable}
use rtltcp.Server.Delivery.{let_through, perform_all, frames, control_loop-Delivers}
use rtltcp.Server.Frames.{read_frame, Delivers-encrypted, master_command-encode}
use rtltcp.Server.Modes.{decrypt-none}
use rtltcp.Server.Thread.{Tick, Thread, on_frame, after_read, control_round, control_loop}
use rtltcp.Server.Thread.Single.{chain_detect_ack, acknowledge}
use rtltcp.Server.Thread.Master.{
  Session, decrypt, exchanged, on_chain_detect, master_command, master_loop,
}
use rtltcp.Proxy.{UpstreamConnection, probe, connect_upstream}
use rtltcp.Proxy.Agreement.{link, connection, server_exchange, connect_chain}
use rtltcp.Proxy.Forward.Chain.{let_through-All}
use rtltcp.Proxy.Masters.{Proxied, masters_loop}
use rtltcp.Proxy.Masters.InStep.{
  Turn, visit_of, limiter_of, forwarded, Fine, later, masters_loop-forwarded,
}

module _ (device : Controller) (cipher : StreamCipher) (laws : CipherLaws cipher)
    (key : List ℕ) where
  open cipher use {State, new, apply_keystream}
  open device use {Handle}

  -- The server's control thread on its end of the link.
  abbrev pub serving :
      Reader → List ℕ → Board Handle → RateLimiter → Session State → Thread Handle (Session State)
  serving r sent b limiter x = record {
    stream = link r sent;
    board = b;
    rate_limiter = limiter;
    session = x;
  }

  -- The session once the nonces are exchanged.
  abbrev agreed : List ℕ → List ℕ → Session State
  agreed mine nonce = record {
    read_cipher = some (new key mine);
    write_cipher = some (new key nonce);
    encryption_nonces = some (nonce, mine);
  }

  on_chain_detect-answers :
      (tick : Tick) (mine : List ℕ) (r : Reader) (sent : List ℕ) (b : Board Handle)
      (limiter : RateLimiter) (x : Session State)
      → length mine ≡ 12
      → on_chain_detect device cipher (some key) tick (serving (sending mine ++ r) sent b limiter x)
        ≡ serving r ((sent ++ chain_detect_ack) ++ tick.nonce) b limiter (agreed mine tick.nonce)
  unfolding on_chain_detect acknowledge exchanged
  on_chain_detect-answers tick mine r sent b limiter x lm = rw (
    send_all_whole chain_detect_ack (sending mine ++ r) sent,
    server_exchange tick.nonce mine key r (sent ++ chain_detect_ack) lm,
  )

  on_frame-probe :
      (tick : Tick) (s : Thread Handle (Session State))
      → tick.should_exit ≡ false
      → (check tick.now s.rate_limiter).1 ≡ true
      → on_frame (decrypt device cipher) (master_command device cipher (some key)) tick probe s
        ≡ again (
            on_chain_detect device cipher
              (some key)
              tick
              (record s { rate_limiter = (check tick.now s.rate_limiter).0 }))
  unfolding on_frame master_command match_command
  on_frame-probe tick s running passed =
      let s' : Thread Handle (Session State) = record s {
        rate_limiter = (check tick.now s.rate_limiter).0;
      } in
      let t : Thread Handle (Session State) = on_chain_detect device cipher (some key) tick s' in
      ap
        (λ (b : Bool).
          if b
          then break s
          else if not (check tick.now s.rate_limiter).1
          then again s'
          else again t)
        running
      ∙ ap (λ (b : Bool). if not b then again s' else again t) passed

  -- The first round of the server: the probe and the exchange.
  round-probe :
      (ticks : ℕ → Tick) (mine : List ℕ) (wire sent : List ℕ) (b : Board Handle)
      (limiter : RateLimiter) (x : Session State)
      → length mine ≡ 12
      → x.read_cipher ≡ none
      → (ticks 0).should_exit ≡ false
      → (check (ticks 0).now limiter).1 ≡ true
      → control_round
          (decrypt device cipher)
          (master_command device cipher (some key))
          ticks
          0
          (serving (sending (probe ++ (mine ++ wire))) sent b limiter x)
        ≡ again (
            serving
              (sending wire)
              ((sent ++ chain_detect_ack) ++ (ticks 0).nonce)
              b
              (check (ticks 0).now limiter).0
              (agreed mine (ticks 0).nonce))
  unfolding control_round after_read
  round-probe ticks mine wire sent b limiter x lm plain running passed =
      rw
        (
          recv_exact_done 5 (link (sending (probe ++ (mine ++ wire))) sent) probe
              (sending (mine ++ wire)) (read_frame probe (mine ++ wire) refl),
          after_read,
          decrypt-none device cipher x probe plain,
        )
        (on_frame-probe (ticks 0) (serving (sending (mine ++ wire)) sent b limiter x) running passed
          ∙ rw (map-append byte mine wire) (
              ap again (
                on_chain_detect-answers (ticks 0) mine (sending wire) sent b
                  (check (ticks 0).now limiter).0 x lm)))

  -- The whole run of the server's thread: it answers, and does what comes encrypted.
  master_loop-session :
      (ticks : ℕ → Tick) (mine sent : List ℕ) (cs : List Command) (fuel : ℕ) (b : Board Handle)
      (limiter : RateLimiter) (x : Session State)
      → length mine ≡ 12
      → x.read_cipher ≡ none
      → ((i : ℕ) → (ticks i).should_exit ≡ false)
      → (check (ticks 0).now limiter).1 ≡ true
      → All Encodable cs
      → length cs + 1 < fuel
      → (t : Thread Handle (Session State)) × (master_loop device cipher (some key) fuel ticks (
            serving
              (sending (probe ++ (mine ++ (apply_keystream (new key mine) (frames cs)).0)))
              sent
              b
              limiter
              x)
          ≡ some t)
        × (t.board ≡ perform_all device (let_through ticks 1 (check (ticks 0).now limiter).0 cs) b)
        × (t.stream.outgoing.sent ≡ (sent ++ chain_detect_ack) ++ (ticks 0).nonce)
  unfolding master_loop control_loop
  master_loop-session ticks mine sent cs (suc fuel) b limiter x lm plain running passed fits
        enough =
      let wire : List ℕ = (apply_keystream (new key mine) (frames cs)).0 in
      let s : Thread Handle (Session State) =
        serving (sending wire) ((sent ++ chain_detect_ack) ++ (ticks 0).nonce) b
          (check (ticks 0).now limiter).0 (agreed mine (ticks 0).nonce) in
      let (t, run, same, out) =
        control_loop-Delivers device (decrypt device cipher)
          (master_command device cipher (some key)) (master_command-encode device cipher (some key))
          ticks running cs fuel 1 s fits (omega arith)
          (Delivers-encrypted device cipher laws s.session (new key mine) cs refl) in
      (
        t,
        loop_again
              (control_round (decrypt device cipher) (master_command device cipher (some key))
                ticks)
              fuel 0 (round-probe ticks mine wire sent b limiter x lm plain (running 0) passed)
            ∙ run,
        same,
        ap (λ (k : Socket). k.sent) out,
      )
  master_loop-session ticks mine sent cs zero b limiter x lm plain running passed fits enough =
      absurd (omega arith)

-- The commands of masters that can be sent are still so behind the rate limiters.
forwarded-Encodable :
    (cipher : StreamCipher) (laws : CipherLaws cipher) (net : Addresses) (magic : List ℕ)
    (whitelist : List String) (read_timeout write_timeout : ℕ) (ms : List Turn)
    → All (Fine cipher laws net magic whitelist read_timeout write_timeout) ms
    → All (λ m. All Encodable m.commands) ms
    → All Encodable (forwarded ms)
forwarded-Encodable cipher laws net magic whitelist read_timeout write_timeout [] fine fits = tt
forwarded-Encodable cipher laws net magic whitelist read_timeout write_timeout (m ∷ ms)
      (fine, all_fine) (fit, fits) =
    All-append (let_through m.ticks 0 (limiter_of m) m.commands) (forwarded ms)
      (let_through-All cipher laws m.ticks fine.1 0 (limiter_of m) m.commands fit)
      (forwarded-Encodable cipher laws net magic whitelist read_timeout write_timeout ms all_fine
        fits)
  where
    All-append :
        (xs ys : List Command) → All Encodable xs → All Encodable ys → All Encodable (xs ++ ys)
    All-append [] ys hx hy = hy
    All-append (x ∷ xs) ys hx hy = (hx.0, All-append xs ys hx.1 hy)

-- A proxy and a server with the same key, from the connection on. The server has sent its magic
-- packet, lets the probe pass its rate limiter, and reads exactly what the proxy sends; the proxy
-- reads what the server sends, and then `r`. The masters of the proxy come one after another, each
-- past the whitelist, send commands whole and leave. No exit flag is up, time-outs are positive, the
-- packet and the nonces have their 12 bytes, and the server has fuel for the probe, each forwarded
-- command and the end. Then the proxy connects and takes the link for an encrypted chain; the
-- commands of all masters, in range or not, go upstream, but for those that the proxy's rate limiters
-- drop; and the server performs them as it does any command, but for those that its own drops, all in
-- their order, and ends.
pub chain_session :
    (device : Controller) (cipher : StreamCipher) (laws : CipherLaws cipher) (net : Addresses)
    (key mine magic : List ℕ) (whitelist : List String) (timeout read_timeout write_timeout : ℕ)
    (ms : List Turn) (ticks : ℕ → Tick) (fuel : ℕ) (r : Reader) (b : Board device.Handle)
    (limiter : RateLimiter) (x : Session cipher.State)
    → 0 < timeout
    → 0 < read_timeout
    → 0 < write_timeout
    → length magic ≡ 12
    → length mine ≡ 12
    → length (ticks 0).nonce ≡ 12
    → All (Fine cipher laws net magic whitelist read_timeout write_timeout) ms
    → All (λ m. All Encodable m.commands) ms
    → ((i : ℕ) → (ticks i).should_exit ≡ false)
    → (check (ticks 0).now limiter).1 ≡ true
    → x.read_cipher ≡ none
    → length (forwarded ms) + 1 < fuel
    → (u : UpstreamConnection cipher) × (p : Proxied cipher net magic whitelist read_timeout
        write_timeout)
      × (t : Thread device.Handle (Session cipher.State)) × (connect_upstream cipher
            (ok (link (sending t.stream.outgoing.sent ++ r) []))
            mine
            (some key)
            timeout
          ≡ ok u)
      × (u.is_chain ≡ true)
      × (u.magic_packet ≡ magic)
      × (masters_loop cipher net magic whitelist read_timeout write_timeout
            (map visit_of ms)
            (record {
              write_cipher = u.write_cipher;
              upstream = record { poisoned = false; value = u.stream.outgoing };
            })
          ≡ some (done true p))
      × (master_loop device cipher
            (some key)
            fuel
            ticks
            (serving device cipher laws key (sending p.upstream.value.sent) magic b limiter x)
          ≡ some t)
      × (t.board
          ≡ perform_all device
              (let_through ticks 1 (check (ticks 0).now limiter).0 (forwarded ms))
              b)
chain_session device cipher laws net key mine magic whitelist timeout read_timeout write_timeout ms
      ticks fuel r b limiter x ht hr hw lm lmine ln fine fits running passed plain enough =
    let cs : List Command = forwarded ms in
    let k : cipher.State = cipher.new key mine in
    let nonce : List ℕ = (ticks 0).nonce in
    let wire : List ℕ = (cipher.apply_keystream k (frames cs)).0 in
    let (t, run, same, sent) =
      master_loop-session device cipher laws key ticks mine magic cs fuel b limiter x lmine plain
        running passed
        (forwarded-Encodable cipher laws net magic whitelist read_timeout write_timeout ms fine
          fits)
        enough in
    (
      connection cipher true (some (cipher.new key nonce)) (some k) magic r (([] ++ probe) ++ mine),
      later cipher laws net magic whitelist read_timeout write_timeout k (probe ++ mine) cs,
      t,
      rw
          (
            sent,
            append_assoc magic chain_detect_ack nonce,
            map-append byte magic (chain_detect_ack ++ nonce),
            map-append byte chain_detect_ack nonce,
            append_assoc (sending magic) (sending chain_detect_ack ++ sending nonce) r,
            append_assoc (sending chain_detect_ack) (sending nonce) r,
          )
          (connect_chain cipher key mine nonce magic timeout r [] ht lm ln),
      refl,
      refl,
      masters_loop-forwarded cipher laws net magic whitelist read_timeout write_timeout ms k
          (probe ++ mine) hr hw fine,
      run,
      same,
    )
