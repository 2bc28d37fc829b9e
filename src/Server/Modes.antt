-- ===== src/Server/Modes.antt =====
-- The two serve modes of src/main.rs against each other.
use mathlib.Core.Option
use rtltcp.Prelude.{
  ℕ, ◌≡◌, refl, ap, ◌∙◌, Bool, true, false, not, Bool-cases, inl, inr, List, Option, none, some,
  arith, if◌then◌else◌,
}
use rtltcp.Prelude.Loop.{again, break, map_flow, loop-map}
use rtltcp.Io.{ErrorKind, Outcome, done, failed}
use rtltcp.Io.Duplex.{Duplex, recv_exact}
use rtltcp.Control.RateLimiter.{check}
use rtltcp.Encryption.{StreamCipher}
use rtltcp.Server.{Controller, match_command, command_byte}
use rtltcp.Server.Thread.{
  Tick, Thread, on_frame, after_read, control_round, control_loop, is_timeout,
}
use rtltcp.Server.Thread.Single.{plain, acknowledge, single_command, single_loop}
use rtltcp.Server.Thread.Master.{Session, decrypt, on_chain_detect, master_command, master_loop}

match_command-map {ℓ κ} :
    {A : Type ℓ} {B : Type κ} (h : A → B) (cmd : ℕ) (f r m g p a c u : A)
    → match_command cmd (h f) (h r) (h m) (h g) (h p) (h a) (h c) (h u)
      ≡ h (match_command cmd f r m g p a c u)
unfolding match_command
match_command-map h cmd f r m g p a c u = ground arith

module _ (device : Controller) (cipher : StreamCipher) (x : Session cipher.State) where
  open device use {Handle}
  open cipher use {State}

  -- The thread of the single-client mode as one of the multi-client mode.
  abbrev pub as_master : Thread Handle (Unit {0}) → Thread Handle (Session State)
  as_master s = record {
    stream = s.stream;
    board = s.board;
    rate_limiter = s.rate_limiter;
    session = x;
  }

  command_agrees :
      (tick : Tick) (buf : List ℕ) (s : Thread Handle (Unit {0}))
      → master_command device cipher none tick buf (as_master s)
        ≡ as_master (single_command device tick buf s)
  unfolding master_command single_command on_chain_detect acknowledge
  command_agrees tick buf s = match_command-map as_master (command_byte buf) _ _ _ _ _ _ _ _

  on_frame_agrees :
      (tick : Tick) (buf : List ℕ) (s : Thread Handle (Unit {0}))
      → on_frame (decrypt device cipher) (master_command device cipher none) tick buf (as_master s)
        ≡ map_flow as_master (on_frame plain (single_command device) tick buf s)
  unfolding on_frame
  on_frame_agrees tick buf s = go tick.should_exit (check tick.now s.rate_limiter).1
    where
      s' : Thread Handle (Unit {0})
      s' = record s { rate_limiter = (check tick.now s.rate_limiter).0 }

      go :
          (exit passed : Bool)
          → (if exit
              then break (as_master s)
              else if not passed
              then again (as_master s')
              else again (master_command device cipher none tick buf (as_master s')))
            ≡ map_flow as_master (
                if exit
                then break s
                else if not passed
                then again s'
                else again (single_command device tick buf s'))
      go true passed = refl
      go false true = ap again (command_agrees tick buf s')
      go false false = refl

  pub decrypt-none : (buf : List ℕ) → x.read_cipher ≡ none → decrypt device cipher x buf ≡ (buf, x)
  unfolding decrypt
  decrypt-none buf e =
      ap
        (λ (o : Option State). elim o as (λ o. List ℕ × Session State) [
          | none ↦ (buf, x)
          | some k ↦ (
            (cipher.apply_keystream k buf).0,
            record x { read_cipher = some (cipher.apply_keystream k buf).1 },
          )
        ])
        e

  round_agrees :
      x.read_cipher ≡ none
      → (ticks : ℕ → Tick) (i : ℕ) (s : Thread Handle (Unit {0}))
      → control_round
          (decrypt device cipher)
          (master_command device cipher none)
          ticks
          i
          (as_master s)
        ≡ map_flow as_master (control_round plain (single_command device) ticks i s)
  unfolding control_round after_read
  round_agrees e ticks i s = go (recv_exact 5 s.stream)
    where
      go :
          (o : Outcome Duplex ErrorKind (List ℕ))
          → after_read
              (decrypt device cipher)
              (master_command device cipher none)
              (ticks i)
              (as_master s)
              o
            ≡ map_flow as_master (after_read plain (single_command device) (ticks i) s o)
      go (done buf d) =
          ap
            (λ (p : List ℕ × Session State).
              on_frame (decrypt device cipher) (master_command device cipher none) (ticks i) p.0
                (record {
                  stream = d;
                  board = s.board;
                  rate_limiter = s.rate_limiter;
                  session = p.1;
                }))
            (decrypt-none buf e)
          ∙ on_frame_agrees (ticks i) buf (record s { stream = d })
      go (failed k d) = elim (Bool-cases (is_timeout k)) [ inl t ↦ rw t | inr t ↦ rw t ]

  -- Without a key the two serve modes treat a client alike, whatever it sends and whatever fails: the
  -- master control thread, while no cipher is set up, ends when the control thread of the
  -- single-client mode does, with the same device, the same counters, the same bytes sent and read
  -- and the same rate limiter, and its session as it was.
  pub master_loop-eq-single_loop :
      x.read_cipher ≡ none
      → (fuel : ℕ) (ticks : ℕ → Tick) (s : Thread Handle (Unit {0}))
      → master_loop device cipher none fuel ticks (as_master s)
        ≡ Option.map as_master (single_loop device fuel ticks s)
  unfolding master_loop single_loop control_loop
  master_loop-eq-single_loop e fuel ticks s =
      loop-map as_master (control_round plain (single_command device) ticks)
        (control_round (decrypt device cipher) (master_command device cipher none) ticks)
        (round_agrees e ticks) fuel 0 s
