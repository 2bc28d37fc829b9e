-- ===== src/Serve/Replies.antt =====
-- What a round of the control thread of `run_serve_single`, of src/main.rs, writes to its client.
use rtltcp.Prelude.{if_keeps, ℕ, ◌≡◌, ap, ◌∙◌, ◌⊎◌, inl, inr, not, List, [], ◌++◌, if◌then◌else◌}
use rtltcp.Prelude.Loop.{Flow, again, break, state}
use rtltcp.Io.{ErrorKind, Outcome, done, failed}
use rtltcp.Io.Write.{Socket}
use rtltcp.Io.Duplex.{Duplex, final, recv_exact, recv_exact_outgoing, send_all, send_all_whole}
use rtltcp.Control.RateLimiter.{check}
use rtltcp.Server.{
  Controller, command_byte, payload_u32, payload_i32, on_set_frequency, on_set_sample_rate,
  on_set_gain_mode, on_set_tuner_gain, on_set_ppm, on_set_agc, on_unknown,
}
use rtltcp.Server.Safety.{match_command_keeps}
use rtltcp.Server.Thread.{Tick, Thread, on_board, on_frame, after_read, control_round, is_timeout}
use rtltcp.Server.Thread.Single.{plain, single_command, acknowledge, chain_detect_ack}

abbrev pub healthy : List ℕ → Socket
healthy sent = record { sent = sent; faults = [] }

-- Nothing more was written, or an acknowledgement.
abbrev pub Replied : List ℕ → Socket → Type 0
Replied sent k = (k ≡ healthy sent) ⊎ (k ≡ healthy (sent ++ chain_detect_ack))

module _ (device : Controller) (sent : List ℕ) where
  acknowledged :
      (s : Thread device.Handle (Unit {0}))
      → s.stream.outgoing ≡ healthy sent
      → (acknowledge s).stream.outgoing ≡ healthy (sent ++ chain_detect_ack)
  unfolding acknowledge
  acknowledged s h =
      ap
        (λ (k : Socket).
          (final (
            send_all chain_detect_ack
              (record { incoming = s.stream.incoming; outgoing = k }))).outgoing)
        h
      ∙ ap (λ (o : Outcome Duplex ErrorKind (Unit {0})). (final o).outgoing)
          (send_all_whole chain_detect_ack s.stream.incoming sent)

  command_replies :
      (tick : Tick) (buf : List ℕ) (s : Thread device.Handle (Unit {0}))
      → s.stream.outgoing ≡ healthy sent
      → Replied sent (single_command device tick buf s).stream.outgoing
  unfolding single_command
  command_replies tick buf s h =
      match_command_keeps (λ (t : Thread device.Handle (Unit {0})). Replied sent t.stream.outgoing)
        (command_byte buf) (on_board s (on_set_frequency device (payload_u32 buf)))
        (on_board s (on_set_sample_rate device (payload_u32 buf)))
        (on_board s (on_set_gain_mode device (payload_i32 buf)))
        (on_board s (on_set_tuner_gain device (payload_i32 buf)))
        (on_board s (on_set_ppm device (payload_i32 buf)))
        (on_board s (on_set_agc device (payload_u32 buf))) (acknowledge s)
        (on_board s (on_unknown device)) (inl h) (inl h) (inl h) (inl h) (inl h) (inl h)
        (inr (acknowledged s h)) (inl h)

  abbrev Flowed : Flow (Thread device.Handle (Unit {0})) → Type 0
  Flowed f = Replied sent (state f).stream.outgoing

  read_replies :
      (tick : Tick) (s : Thread device.Handle (Unit {0})) (o : Outcome Duplex ErrorKind (List ℕ))
      → (final o).outgoing ≡ healthy sent
      → Flowed (after_read plain (single_command device) tick s o)
  unfolding after_read on_frame
  read_replies tick s (done buf d) h =
      let s1 : Thread device.Handle (Unit {0}) = record s { stream = d } in
      let s2 : Thread device.Handle (Unit {0}) = record s1 {
        rate_limiter = (check tick.now s.rate_limiter).0;
      } in
      if_keeps Flowed tick.should_exit (break s1)
        (if not (check tick.now s.rate_limiter).1
          then again s2
          else again (single_command device tick buf s2))
        (λ e. inl h)
        (λ e.
          if_keeps Flowed (not (check tick.now s.rate_limiter).1) (again s2)
            (again (single_command device tick buf s2)) (λ e. inl h)
            (λ e. command_replies tick buf s2 h))
  read_replies tick s (failed e d) h =
      let s1 : Thread device.Handle (Unit {0}) = record s { stream = d } in
      if_keeps Flowed (is_timeout e) (again s1) (break s1) (λ e. inl h) (λ e. inl h)

  -- A round writes nothing, or one acknowledgement.
  pub control_round_replies :
      (ticks : ℕ → Tick) (i : ℕ) (s : Thread device.Handle (Unit {0}))
      → s.stream.outgoing ≡ healthy sent
      → Flowed (control_round plain (single_command device) ticks i s)
  unfolding control_round
  control_round_replies ticks i s h =
      read_replies (ticks i) s (recv_exact 5 s.stream) (recv_exact_outgoing 5 s.stream ∙ h)
