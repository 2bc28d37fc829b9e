-- ===== src/Server/Thread/Idle.antt =====
-- The exit flag and a master that sends nothing, for the control threads of src/main.rs.
use rtltcp.Prelude.{
  ℕ, suc, ◌+◌, ◌≡◌, refl, ap, ◌∙◌, sym, true, List, [], ◌∷◌, ◌++◌, map, Option, length, All, arith,
}
use mathlib.Core.Path.{fun_ext}
use native.Mathlib.Nat.{zero-add}
use rtltcp.Prelude.Loop.{again, loop, loop_again, loop-suc}
use rtltcp.Io.{ErrorKind}
use rtltcp.Io.Read.{Reader, fail, read_exact}
use rtltcp.Io.Duplex.{recv_exact_failed}
use rtltcp.Encryption.{StreamCipher}
use rtltcp.Server.{Controller}
use rtltcp.Server.Thread.{Tick, Thread, is_timeout, after_read, control_round, control_loop}
use rtltcp.Server.Thread.Master.{Session, decrypt, master_command, master_loop}

abbrev pub timeouts : List ErrorKind → Reader
timeouts es = map fail es

abbrev pub with_incoming : {Handle S : Type 0} → Reader → Thread Handle S → Thread Handle S
with_incoming r s = record s { stream = record { incoming = r; outgoing = s.stream.outgoing } }

module _ {Handle Session : Type 0} (decrypt : Session → List ℕ → List ℕ × Session)
    (command : Tick → List ℕ → Thread Handle Session → Thread Handle Session) where
  control_round-timeout :
      (ticks : ℕ → Tick) (i : ℕ) (e : ErrorKind) (r : Reader) (s : Thread Handle Session)
      → is_timeout e ≡ true
      → control_round decrypt command ticks i (with_incoming (fail e ∷ r) s)
        ≡ again (with_incoming r s)
  unfolding control_round after_read
  control_round-timeout ticks i e r s h = rw (
    recv_exact_failed 5 (record { incoming = fail e ∷ r; outgoing = s.stream.outgoing }) e r
        (unfold read_exact in refl),
    after_read,
    h,
  )

  loop-later :
      (ticks : ℕ → Tick) (fuel : ℕ) (s : Thread Handle Session)
      → loop (control_round decrypt command ticks) fuel 1 s
        ≡ loop (control_round decrypt command (λ i. ticks (suc i))) fuel 0 s
  unfolding control_round
  loop-later ticks fuel s = loop-suc (control_round decrypt command ticks) fuel 0 s

  control_loop-timeouts :
      (es : List ErrorKind) (ticks : ℕ → Tick) (fuel : ℕ) (r : Reader) (s : Thread Handle Session)
      → All (λ e. is_timeout e ≡ true) es
      → loop
          (control_round decrypt command ticks)
          (length es + fuel)
          0
          (with_incoming (timeouts es ++ r) s)
        ≡ loop
            (control_round decrypt command (λ i. ticks (length es + i)))
            fuel
            0
            (with_incoming r s)
  control_loop-timeouts [] ticks fuel r s h =
      ap (λ n. loop (control_round decrypt command ticks) n 0 (with_incoming r s)) (zero-add fuel)
      ∙ ap (λ t. loop (control_round decrypt command t) fuel 0 (with_incoming r s))
          (fun_ext λ i. ap ticks (sym (zero-add i)))
  control_loop-timeouts (e ∷ es) ticks fuel r s (h, hs) =
      let more : suc (length es) + fuel ≡ suc (length es + fuel) = omega arith in
      rw more (
        loop_again (control_round decrypt command ticks) (length es + fuel) 0
          (control_round-timeout ticks 0 e (timeouts es ++ r) s h)
        ∙ loop-later ticks (length es + fuel) (with_incoming (timeouts es ++ r) s)
        ∙ control_loop-timeouts es (λ i. ticks (suc i)) fuel r s hs
        ∙ ap (λ t. loop (control_round decrypt command t) fuel 0 (with_incoming r s))
            (fun_ext λ i. ap ticks (omega arith)))

-- While a master sends nothing, its control thread does not look at the exit flag: reads that time
-- out leave the thread as it was, whatever the flag and the clock are in those rounds, and it runs
-- on as it would have without them, with the flag, the clock and the nonces of the later rounds.
pub master_loop-timeouts :
    (device : Controller) (cipher : StreamCipher) (key : Option (List ℕ)) (ticks : ℕ → Tick)
    (es : List ErrorKind) (s : Thread device.Handle (Session cipher.State)) (r : Reader) (fuel : ℕ)
    → All (λ e. is_timeout e ≡ true) es
    → master_loop device cipher key (length es + fuel) ticks (with_incoming (timeouts es ++ r) s)
      ≡ master_loop device cipher key fuel (λ i. ticks (length es + i)) (with_incoming r s)
unfolding master_loop control_loop
master_loop-timeouts device cipher key ticks es s r fuel h =
    control_loop-timeouts (decrypt device cipher) (master_command device cipher key) es ticks fuel r
      s h
