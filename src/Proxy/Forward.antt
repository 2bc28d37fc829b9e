-- ===== src/Proxy/Forward.antt =====
-- The control thread of `run_proxy_multi` of src/main.rs: it forwards the master's commands to the
-- upstream server, encrypted where the link is. Its reader thread relays what the upstream sends.
pub mod Chain
pub mod Ending
use rtltcp.Prelude.{
  ℕ, Bool, true, not, List, [], ◌∷◌, ◌++◌, Option, none, some, length, ◌==◌, if◌then◌else◌,
}
use rtltcp.Prelude.Loop.{Flow, again, break, loop}
use rtltcp.Io.{ErrorKind, Result, ok, err, Outcome, done, failed}
use rtltcp.Io.Read.{Reader, read_exact}
use rtltcp.Io.Write.{Socket, socket_write_all}
use rtltcp.Control.{Mutex, command_header_size}
use rtltcp.Control.RateLimiter.{RateLimiter, check}
use rtltcp.Encryption.{StreamCipher}
use rtltcp.Server.Thread.{Tick, is_timeout}

module _ (cipher : StreamCipher) where
  open cipher use {State, apply_keystream}

  -- The thread's variables, with the cipher and the upstream stream that outlive it.
  pub record Forwarder : Type 0 where
    pub master : Reader
    pub rate_limiter : RateLimiter
    pub write_cipher : Option State
    pub upstream : Mutex Socket

  -- The frame as it goes upstream, and the cipher behind it. (A poisoned lock on the cipher is
  -- recovered, so it does not show.)
  unfoldable pub seal : Option State → List ℕ → List ℕ × Option State
  seal none buf = (buf, none)
  seal (some k) buf = ((apply_keystream k buf).0, some (apply_keystream k buf).1)

  after_forward : Forwarder → Outcome Socket ErrorKind (Unit {0}) → Flow Forwarder
  after_forward f (done u k) = again (record f { upstream = record f.upstream { value = k } })
  after_forward f (failed e k) = break (record f { upstream = record f.upstream { value = k } })

  forward : List ℕ → Forwarder → Flow Forwarder
  unfolding after_forward seal
  forward buf f =
      let (wire, k) = seal f.write_cipher buf in
      let f' : Forwarder = record f { write_cipher = k } in
      if f.upstream.poisoned
      then break f'
      else after_forward f' (socket_write_all wire f.upstream.value)

  forward_read : Tick → Forwarder → Outcome Reader ErrorKind (List ℕ) → Flow Forwarder
  unfolding forward
  forward_read tick f (done buf rest) =
      let (limiter, passed) = check tick.now f.rate_limiter in
      let f' : Forwarder = record f { master = rest; rate_limiter = limiter } in
      if tick.should_exit
      then break (record f { master = rest })
      else if not passed
      then again f'
      else forward buf f'
  forward_read tick f (failed e rest) =
      let f' : Forwarder = record f { master = rest } in if is_timeout e then again f' else break f'

  unfoldable pub forward_round : (ℕ → Tick) → ℕ → Forwarder → Flow Forwarder
  unfolding forward_read
  forward_round ticks i f = forward_read (ticks i) f (read_exact command_header_size f.master)

  unfoldable pub forward_loop : ℕ → (ℕ → Tick) → Forwarder → Option Forwarder
  forward_loop fuel ticks f = loop (forward_round ticks) fuel 0 f

-- What the reader thread finds in a round: the exit flag, and what `read` gives.
pub record Arrival : Type 0 where
  pub should_exit : Bool
  pub read : Result ErrorKind (List ℕ)

abbrev pub is_empty_read : List ℕ → Bool
is_empty_read buf = length buf == 0

-- What the reader thread gave to the broadcast channel, and whether it sent into the channel of the
-- main thread.
pub record Relayed : Type 0 where
  pub given : List (List ℕ)
  pub signalled : Bool

relay_read : Result ErrorKind (List ℕ) → Relayed → Flow Relayed
relay_read (ok buf) s =
    if is_empty_read buf then break s else again (record s { given = s.given ++ (buf ∷ []) })
relay_read (err e) s = if is_timeout e then again s else break (record s { signalled = true })

-- The buffers go to the broadcast channel as they arrived.
unfoldable pub relay : List Arrival → Relayed → Flow Relayed
unfolding relay_read
relay [] s = again s
relay (a ∷ rest) s = elim (if a.should_exit then break s else relay_read a.read s) [
  | again s' ↦ relay rest s'
  | break s' ↦ break s'
]
