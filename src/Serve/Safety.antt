-- ===== src/Serve/Safety.antt =====
-- What the device of `run_serve_single` of src/main.rs keeps.
use rtltcp.Prelude.{if_keeps, ℕ, ◌+◌, ◌%◌, length, ◌≡◌, true, false, List, [], ◌∷◌}
use rtltcp.Prelude.Int.{ℤ}
use rtltcp.Prelude.Loop.{Flow, again, break, state}
use rtltcp.Io.{ErrorKind, ok, Outcome, done, failed, ◌>>◌}
use rtltcp.Io.BufWriter.{BufWriter, buffered_write_all, flush}
use rtltcp.Bytes.{u64_mod}
use rtltcp.Control.Ranges.{IsFrequency, IsSampleRate, IsPpm, IsTunerGain}
use rtltcp.Control.Whitelist.{Addresses}
use rtltcp.Args.{Args}
use rtltcp.Server.{Controller, called}
use rtltcp.Server.Thread.{Thread, control_round}
use rtltcp.Server.Thread.Single.{plain, single_command}
use rtltcp.Server.Safety.{single_round_keeps}
use rtltcp.Serve.{
  control_of, Outside, CancelThread, waiting, stopping, finished, Event, round, samples,
  end_of_reading, signal, cancelling, Running, writer, with_writer, accepts, try_send,
  after_samples, on_samples, after_round, found, on_cancel, step, run, begin, serve_single,
}
use rtltcp.Serve.Ran.{Ran, open_single-device, serve_single-Ran}

module _ (device : Controller) (P : device.Handle → Type 0)
    (frequency : (f : ℕ) (d : device.Handle)
      → IsFrequency f
      → P d
      → P (called (device.set_center_freq f d)))
    (sample_rate : (r : ℕ) (d : device.Handle)
      → IsSampleRate r
      → P d
      → P (called (device.set_sample_rate r d)))
    (tuner_gain : (g : ℤ) (d : device.Handle)
      → IsTunerGain g
      → P d
      → P (called (device.set_tuner_gain g d)))
    (ppm : (p : ℤ) (d : device.Handle) → IsPpm p → P d → P (called (device.set_ppm p d)))
    (agc_on : (d : device.Handle) → P d → P (called (device.enable_agc d)))
    (agc_off : (d : device.Handle) → P d → P (called (device.disable_agc d))) where
  abbrev Holding : Running device → Type 0
  Holding s = P s.control.board.ctl.value

  try_send_keeps : (s : Running device) → Holding s → Holding (try_send device s)
  try_send_keeps s h =
      if_keeps Holding (accepts device s) (record s { pending = true }) s (λ a. h) (λ a. h)

  after_samples_keeps :
      (s : Running device) (o : Outcome BufWriter ErrorKind (Unit {0}))
      → Holding s
      → Holding (after_samples device s o)
  unfolding after_samples
  after_samples_keeps s (done u w) h = h
  after_samples_keeps s (failed e w) h = try_send_keeps (with_writer device w s) h

  after_round_keeps :
      (s : Running device) (f : Flow (Thread device.Handle (Unit {0})))
      → P (state f).board.ctl.value
      → Holding (after_round device s f)
  unfolding after_round
  after_round_keeps s (again t) h = h
  after_round_keeps s (break t) h = h

  step_keeps : (e : Event) (s : Running device) → Holding s → Holding (step device e s)
  unfolding step on_samples on_cancel
  step_keeps (round now) s h =
      if_keeps Holding s.control_ended s _ (λ e. h)
        (λ e.
          after_round_keeps s
            (control_round plain (single_command device) (found device s now) 0
              (control_of device s))
            (single_round_keeps device P frequency sample_rate tuner_gain ppm agc_on agc_off
              (found device s now) 0 (control_of device s) h))
  step_keeps (samples bytes) s h =
      if_keeps Holding s.reading _ s
        (λ e.
          after_samples_keeps
            (record s { total_bytes_sent = (s.total_bytes_sent + length bytes) % u64_mod })
            ((buffered_write_all bytes >> flush) (writer device s)) h)
        (λ e. h)
  step_keeps end_of_reading s h =
      if_keeps Holding s.reading (try_send device (record s { reading = false })) s
        (λ e. try_send_keeps (record s { reading = false }) h) (λ e. h)
  step_keeps signal s h =
      if_keeps Holding (accepts device s) (record (try_send device s) { shut_down = true })
        (record s { should_exit = true; shut_down = true }) (λ e. try_send_keeps s h) (λ e. h)
  step_keeps cancelling s h = go s.cancel
    where
      go : (c : CancelThread) → Holding (on_cancel device c s)
      go waiting =
          if_keeps Holding s.pending (record s { pending = false; cancel = stopping }) s (λ e. h)
            (λ e. h)
      go stopping = h
      go finished = h

  run_keeps : (es : List Event) (s : Running device) → Holding s → Holding (run device es s)
  unfolding run
  run_keeps [] s h = h
  run_keeps (e ∷ es) s h = run_keeps es (step device e s) (step_keeps e s h)

  module _ (net : Addresses) (magic : List ℕ) (o : Outside device.Handle) where
    -- In a session of the single-client mode that got past the magic packet, whatever the order of
    -- the steps, whatever arrives and whatever fails: what a newly opened device has, and keeps under
    -- calls with values in their documented ranges and under switching the automatic gain, the device
    -- has after all steps.
    pub serve_single_safe :
        ((index : ℕ) (ctl : device.Handle) → o.open_device index ≡ ok ctl → P ctl)
        → (args : Args) (started started_later : ℕ) (early late : List Event) (s : Running device)
        → serve_single device net magic o args started started_later early late ≡ ok s
        → P s.control.board.ctl.value
    serve_single_safe opened args started started_later early late s h =
        let r : Ran device net magic o args started started_later early late s =
          serve_single-Ran device net magic o args started started_later early late s h in
        rw r.ran (
          run_keeps late _ (
            run_keeps early
              (begin device net magic o args started started_later r.client.0 r.client.1)
              (opened args.device_index r.client.1
                (open_single-device device net magic o args r.client r.opened))))
