-- ===== src/Server/Delivery.antt =====
-- A run of the control loop of src/main.rs over a stream that delivers a client's commands, in terms
-- of what the commands mean.
use rtltcp.Prelude.{
  ℕ, zero, suc, ◌<◌, ◌≡◌, refl, ap, ◌∙◌, false, Bool-cases, inl, inr, List, [], ◌∷◌, map, some,
  length, All, concat, arith, if◌then◌else◌,
}
use rtltcp.Prelude.Loop.{again, loop, loop_again, loop_break}
use rtltcp.Io.{done}
use rtltcp.Io.Read.{Reader, read_exact}
use rtltcp.Io.Duplex.{recv_exact_done, recv_exact_eof}
use rtltcp.Control.RateLimiter.{RateLimiter, check}
use rtltcp.Server.{Controller, Board}
use rtltcp.Server.Commands.{Command, Encodable, encode, perform}
use rtltcp.Server.Thread.{Tick, Thread, on_board, on_frame, after_read, control_round}

-- Of the commands that come in rounds `i`, `i + 1`, …, those that the rate limiter lets through.
unfoldable pub let_through : {A : Type 0} → (ℕ → Tick) → ℕ → RateLimiter → List A → List A
let_through ticks i r [] = []
let_through ticks i r (c ∷ cs) =
    let (r', passed) = check (ticks i).now r in
    let rest = let_through ticks (suc i) r' cs in if passed then c ∷ rest else rest

-- The commands, one after the other.
pub perform_all : (device : Controller) → List Command → Board device.Handle → Board device.Handle
perform_all device [] b = b
perform_all device (c ∷ cs) b = perform_all device cs (perform device c b)

abbrev pub frames : List Command → List ℕ
frames cs = concat (map encode cs)

-- The stream brings the frames of the commands, as they read after decryption, and then ends.
abbrev pub Delivers :
    {Session : Type 0}
    → (Session → List ℕ → List ℕ × Session)
    → Session
    → Reader
    → List Command
    → Type 0
Delivers d x r [] = r ≡ []
Delivers {Session} d x r (c ∷ cs) =
    (wire : List ℕ) × (rest : Reader) × (x' : Session) × (read_exact 5 r ≡ done wire rest)
    × (d x wire ≡ (encode c, x'))
    × Delivers d x' rest cs

module _ (device : Controller) {Session : Type 0} (decrypt : Session → List ℕ → List ℕ × Session)
    (command : Tick → List ℕ → Thread device.Handle Session → Thread device.Handle Session)
    (obeys : (tick : Tick) (c : Command) (s : Thread device.Handle Session)
      → Encodable c
      → command tick (encode c) s ≡ on_board s (perform device c))
    (ticks : ℕ → Tick) (running : (i : ℕ) → (ticks i).should_exit ≡ false) where
  open device use {Handle}

  -- One frame: the stream and the limiter move on, and the command is done if it is let through.
  after_frame : ℕ → Command → Reader → Session → Thread Handle Session → Thread Handle Session
  after_frame i c rest x s =
      let (r, passed) = check (ticks i).now s.rate_limiter in
      record {
        stream = record { incoming = rest; outgoing = s.stream.outgoing };
        board = if passed then perform device c s.board else s.board;
        rate_limiter = r;
        session = x;
      }

  on_frame_running :
      (tick : Tick) (buf : List ℕ) (s : Thread Handle Session)
      → tick.should_exit ≡ false
      → on_frame decrypt command tick buf s ≡ (
          let s' = record s { rate_limiter = (check tick.now s.rate_limiter).0 } in
          if (check tick.now s.rate_limiter).1 then again (command tick buf s') else again s')
  unfolding on_frame
  on_frame_running tick buf s h = ground arith

  round_frame :
      (i : ℕ) (c : Command) (wire : List ℕ) (rest : Reader) (x : Session)
      (s : Thread Handle Session)
      → Encodable c
      → read_exact 5 s.stream.incoming ≡ done wire rest
      → decrypt s.session wire ≡ (encode c, x)
      → control_round decrypt command ticks i s ≡ again (after_frame i c rest x s)
  unfolding control_round after_frame
  round_frame i c wire rest x s fits r e =
      rw
        (
          recv_exact_done 5 s.stream wire rest r,
          after_read,
          e,
          on_frame_running (ticks i) (encode c)
              (record s {
                stream = record { incoming = rest; outgoing = s.stream.outgoing };
                session = x;
              })
              (running i),
        )
        (elim (Bool-cases (check (ticks i).now s.rate_limiter).1) [
          | inl t ↦ rw t (ap again (obeys (ticks i) c _ fits))
          | inr t ↦ rw t
        ])

  -- The whole run.
  pub control_loop-Delivers :
      (cs : List Command) (fuel i : ℕ) (s : Thread Handle Session)
      → All Encodable cs
      → length cs < fuel
      → Delivers decrypt s.session s.stream.incoming cs
      → (t : Thread Handle Session) × (loop (control_round decrypt command ticks) fuel i s ≡ some t)
        × (t.board ≡ perform_all device (let_through ticks i s.rate_limiter cs) s.board)
        × (t.stream.outgoing ≡ s.stream.outgoing)
  unfolding perform_all let_through after_frame
  control_loop-Delivers cs zero i s fits h d = absurd (omega arith)
  control_loop-Delivers [] (suc fuel) i s fits h d = (
    record s { stream = record s.stream { incoming = [] } },
    loop_break (control_round decrypt command ticks) fuel i
        (unfold control_round after_read in rw (recv_exact_eof 4 s.stream d)),
    refl,
    refl,
  )
  control_loop-Delivers (c ∷ cs) (suc fuel) i s (fc, fits) h (wire, rest, x, r, e, d) =
      let (t, run, same, out) =
        control_loop-Delivers cs fuel (suc i) (after_frame i c rest x s) fits (omega arith) d in
      (
        t,
        loop_again (control_round decrypt command ticks) fuel i
              (round_frame i c wire rest x s fc r e)
            ∙ run,
        elim (Bool-cases (check (ticks i).now s.rate_limiter).1) [
          | inl p ↦ rw p (rw p at same)
          | inr p ↦ rw p (rw p at same)
        ],
        out,
      )
