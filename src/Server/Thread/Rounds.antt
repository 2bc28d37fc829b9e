-- ===== src/Server/Thread/Rounds.antt =====
-- That the loop of a control thread ends, and keeps what each command keeps.
use rtltcp.Prelude.{ℕ, ◌≤◌, ◌<◌, ◌≡◌, refl, ap, true, List, [], ◌∷◌, ◌++◌, length, some, arith}
use rtltcp.Prelude.Loop.{again, state, loop_total}
use rtltcp.Io.{ErrorKind, Outcome, done, failed}
use rtltcp.Io.Read.{Reader, fail, sending, read_exact_interrupted}
use rtltcp.Control.RateLimiter.{check}
use rtltcp.Io.Duplex.{Duplex, final, recv_exact_failed, recv_exact_eof, recv_exact_consumes}
use rtltcp.Server.{Board}
use rtltcp.Server.Thread.{
  Tick, Thread, on_frame, after_read, control_round, control_loop, is_timeout,
}

abbrev pub pending : {Handle Session : Type 0} → Thread Handle Session → ℕ
pending s = length s.stream.incoming

module _ {Handle Session : Type 0} (decrypt : Session → List ℕ → List ℕ × Session)
    (command : Tick → List ℕ → Thread Handle Session → Thread Handle Session)
    (P : Board Handle → Type 0)
    (keeps : (tick : Tick) (buf : List ℕ) (s : Thread Handle Session)
      → P s.board
      → P (command tick buf s).board) where
  after_read_keeps :
      (tick : Tick) (s : Thread Handle Session) (o : Outcome Duplex ErrorKind (List ℕ))
      → P s.board
      → P (state (after_read decrypt command tick s o)).board
  unfolding after_read on_frame
  after_read_keeps tick s (done buf d) p = ground (
    arith,
    keeps tick (decrypt s.session buf).0 (record s {
      stream = d;
      session = (decrypt s.session buf).1;
      rate_limiter = (check tick.now s.rate_limiter).0;
    }),
  )
  after_read_keeps tick s (failed k d) p = ground arith

  pub control_round_keeps :
      (ticks : ℕ → Tick) (i : ℕ) (s : Thread Handle Session)
      → P s.board
      → P (state (control_round decrypt command ticks i s)).board
  unfolding control_round
  control_round_keeps ticks i s p = after_read_keeps (ticks i) s _ p

module _ {Handle Session : Type 0} (decrypt : Session → List ℕ → List ℕ × Session)
    (command : Tick → List ℕ → Thread Handle Session → Thread Handle Session)
    (reads : (tick : Tick) (buf : List ℕ) (s : Thread Handle Session)
      → pending (command tick buf s) ≤ pending s) where
  after_read_reads :
      (tick : Tick) (s t : Thread Handle Session) (o : Outcome Duplex ErrorKind (List ℕ))
      → after_read decrypt command tick s o ≡ again t
      → pending t ≤ length (final o).incoming
  unfolding after_read on_frame
  after_read_reads tick s t (done buf d) e = ground (
    arith,
    reads tick (decrypt s.session buf).0 (record s {
      stream = d;
      session = (decrypt s.session buf).1;
      rate_limiter = (check tick.now s.rate_limiter).0;
    }),
  )
  after_read_reads tick s t (failed k d) e = ground arith

  round_falls :
      (ticks : ℕ → Tick) (i : ℕ) (s t : Thread Handle Session)
      → control_round decrypt command ticks i s ≡ again t
      → pending t < pending s
  unfolding control_round after_read
  round_falls ticks i s t e = go s.stream.incoming refl
    where
      go : (r : Reader) → s.stream.incoming ≡ r → pending t < pending s
      go [] h = cc (rw (recv_exact_eof 4 s.stream h) at e)
      go (v ∷ vs) h = omega (
        arith,
        ap length h,
        after_read_reads (ticks i) s t _ e,
        recv_exact_consumes 4 s.stream v vs h,
      )

  module _ (P : Board Handle → Type 0)
      (keeps : (tick : Tick) (buf : List ℕ) (s : Thread Handle Session)
        → P s.board
        → P (command tick buf s).board) where
    -- The loop ends, whatever arrives, and keeps what each command keeps of the board.
    pub control_loop_total :
        (fuel : ℕ) (ticks : ℕ → Tick) (s : Thread Handle Session)
        → pending s < fuel
        → P s.board
        → (t : Thread Handle Session) × (control_loop decrypt command fuel ticks s ≡ some t)
          × P t.board
    unfolding control_loop
    control_loop_total fuel ticks s h p =
        loop_total (control_round decrypt command ticks) (λ s. P s.board) pending
          (round_falls ticks) (control_round_keeps decrypt command P keeps ticks) fuel 0 s h p

-- When the read times out in the middle of a frame, the bytes of it that had come are dropped, and
-- the next round reads on from the middle of the frame as if a new one began there.
pub control_round_timeout :
    {Handle Session : Type 0} (decrypt : Session → List ℕ → List ℕ × Session)
    (command : Tick → List ℕ → Thread Handle Session → Thread Handle Session) (ticks : ℕ → Tick)
    (i : ℕ) (s : Thread Handle Session) (bs : List ℕ) (e : ErrorKind) (more : Reader)
    → length bs < 5
    → is_timeout e ≡ true
    → s.stream.incoming ≡ sending bs ++ (fail e ∷ more)
    → control_round decrypt command ticks i s
      ≡ again (record s { stream = record s.stream { incoming = more } })
unfolding control_round after_read
control_round_timeout decrypt command ticks i s bs e more short slow arrives = rw (
  recv_exact_failed 5 s.stream e more (rw arrives (read_exact_interrupted 5 bs e more short)),
  after_read,
  slow,
)
