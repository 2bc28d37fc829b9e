-- ===== src/Proxy/Masters/InStep.antt =====
-- The cipher of a proxy's upstream link over the masters that come one after another, for
-- `run_proxy_multi` of src/main.rs.
use Prim.Native.String.{String}
use rtltcp.Prelude.{
  ℕ, suc, ◌≤◌, ◌<◌, ◌≡◌, refl, sym, ap, ◌∙◌, true, false, List, [], ◌∷◌, ◌++◌, map, map-append,
  append-nil, append_assoc, some, length, length-append, All, arith,
}
use rtltcp.Io.{ok, done}
use rtltcp.Io.Read.{byte, sending}
use rtltcp.Io.Duplex.{send_all_whole}
use rtltcp.Control.{command_rate_limit_interval}
use rtltcp.Control.RateLimiter
use rtltcp.Control.RateLimiter.{RateLimiter}
use rtltcp.Control.Whitelist.{Addresses, check_whitelist}
use rtltcp.Encryption.{StreamCipher, CipherLaws}
use rtltcp.Server.Commands.{Command, encode, length-encode}
use rtltcp.Server.Delivery.{let_through, frames}
use rtltcp.Server.Thread.{Tick}
use rtltcp.Server.Masters.{Visit, connection}
use rtltcp.Server.Masters.Writer.{set_timeouts-positive}
use rtltcp.Proxy.Agreement.{link}
use rtltcp.Proxy.Forward.{forward_loop}
use rtltcp.Proxy.Forward.Chain.{forward_loop-frames}
use rtltcp.Proxy.Masters.{
  Proxied, forwarder, after_join, after_magic, after_timeouts, on_checked, on_accept, master_round,
  masters_loop,
}

-- A master that sends its commands whole and leaves, with what its thread finds meanwhile.
pub record Turn : Type 0 where
  pub commands : List Command
  pub ip : String
  pub started : ℕ
  pub started_later : ℕ
  pub ticks : ℕ → Tick

abbrev pub visit_of : Turn → Visit
visit_of m = record {
  should_exit = false;
  accept = connection (link (sending (frames m.commands)) []) m.ip;
  started = m.started;
  started_later = m.started_later;
  ticks = m.ticks;
  exit_after = false;
}

abbrev pub limiter_of : Turn → RateLimiter
limiter_of m = RateLimiter.new command_rate_limit_interval m.started m.started_later

-- What the rate limiter of each master's thread lets through, one master after the other.
abbrev pub forwarded : List Turn → List Command
forwarded [] = []
forwarded (m ∷ ms) = let_through m.ticks 0 (limiter_of m) m.commands ++ forwarded ms

pub frames-append : (xs ys : List Command) → frames (xs ++ ys) ≡ frames xs ++ frames ys
frames-append [] ys = refl
frames-append (x ∷ xs) ys =
    ap (λ bs. encode x ++ bs) (frames-append xs ys)
    ∙ sym (append_assoc (encode x) (frames xs) (frames ys))

length-frames : (cs : List Command) → length cs ≤ length (sending (frames cs))
length-frames [] = omega arith
length-frames (c ∷ cs) = rw (map-append byte (encode c) (frames cs)) (
    omega (
      arith,
      length-append (sending (encode c)) (sending (frames cs)),
      some_bytes (encode c) (length-encode c),
      length-frames cs,
    ))
  where
    some_bytes : (bs : List ℕ) → length bs ≡ 5 → 1 ≤ length (sending bs)
    some_bytes [] h = absurd (omega arith)
    some_bytes (b ∷ bs) h = omega arith

module _ (cipher : StreamCipher) (laws : CipherLaws cipher) (net : Addresses) (magic : List ℕ)
    (whitelist : List String) (read_timeout write_timeout : ℕ) where
  open cipher use {State, apply_keystream}

  abbrev pub Fine : Turn → Type 0
  Fine m =
      (check_whitelist net m.ip whitelist ≡ ok tt) × ((i : ℕ) → (m.ticks i).should_exit ≡ false)

  -- The cipher, and a healthy stream to the upstream server.
  abbrev pub linked : State → List ℕ → Proxied cipher net magic whitelist read_timeout write_timeout
  linked k sent = record {
    write_cipher = some k;
    upstream = record { poisoned = false; value = record { sent = sent; faults = [] } };
  }

  -- The link once more commands went over it.
  abbrev pub later :
      State → List ℕ → List Command → Proxied cipher net magic whitelist read_timeout write_timeout
  later k sent cs = let (wire, k') = apply_keystream k (frames cs) in linked k' (sent ++ wire)

  master_round-visit_of :
      (m : Turn) (k : State) (sent : List ℕ)
      → 0 < read_timeout
      → 0 < write_timeout
      → Fine m
      → master_round cipher net magic whitelist read_timeout write_timeout
          (visit_of m)
          (linked k sent)
        ≡ some (done true (later k sent (let_through m.ticks 0 (limiter_of m) m.commands)))
  unfolding master_round on_accept on_checked after_timeouts after_magic after_join forwarder
      forward_loop
  master_round-visit_of m k sent hr hw (passes, running) =
      let (r, run) =
        forward_loop-frames cipher laws m.ticks running m.commands
          (suc (length (sending (frames m.commands)))) 0 (limiter_of m) k sent
          (omega (arith, length-frames m.commands)) in
      rw (
        passes,
        set_timeouts-positive read_timeout write_timeout (link (sending (frames m.commands)) []) hr
            hw,
        after_timeouts,
        send_all_whole magic (sending (frames m.commands)) [],
        after_magic,
        run,
      )

  later-later :
      (k : State) (sent : List ℕ) (xs ys : List Command)
      → later (apply_keystream k (frames xs)).1 (sent ++ (apply_keystream k (frames xs)).0) ys
        ≡ later k sent (xs ++ ys)
  later-later k sent xs ys = rw (
    frames-append xs ys,
    laws.apply-append k (frames xs) (frames ys),
    laws.apply-append_state k (frames xs) (frames ys),
    append_assoc sent (apply_keystream k (frames xs)).0
        (apply_keystream (apply_keystream k (frames xs)).1 (frames ys)).0,
  )

  -- Masters that come one after another, each past the whitelist, send their commands whole and
  -- leave, with positive time-outs, no exit flag and a healthy stream to the upstream server: what
  -- goes upstream is one encrypted stream, from the cipher state at the start on, of all the commands
  -- that the rate limiters let through, in their order; and the cipher stands behind it.
  pub masters_loop-forwarded :
      (ms : List Turn) (k : State) (sent : List ℕ)
      → 0 < read_timeout
      → 0 < write_timeout
      → All Fine ms
      → masters_loop cipher net magic whitelist read_timeout write_timeout
          (map visit_of ms)
          (linked k sent)
        ≡ some (done true (later k sent (forwarded ms)))
  unfolding masters_loop
  masters_loop-forwarded [] k sent hr hw fine = rw (laws.apply_nil k, append-nil sent)
  masters_loop-forwarded (m ∷ ms) k sent hr hw (fine, all_fine) =
      let cs : List Command = let_through m.ticks 0 (limiter_of m) m.commands in
      let (wire, k') = apply_keystream k (frames cs) in
      rw (masters_loop, master_round-visit_of m k sent hr hw fine)
        (masters_loop-forwarded ms k' (sent ++ wire) hr hw all_fine
          ∙ ap (λ s. some (done true s)) (later-later k sent cs (forwarded ms)))
