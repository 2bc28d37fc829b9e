-- ===== src/Serve/Cancel.antt =====
-- The cancel thread of `run_serve_single` of src/main.rs, and what asks for its steps.
use rtltcp.Prelude.{
  if_keeps, ℕ, ◌-◌, ◌≤◌, ◌≡◌, refl, Bool, true, false, not, ◌&&◌, ◌||◌, List, arith,
}
use rtltcp.Prelude.Loop.{Flow, again, break}
use rtltcp.Io.{ErrorKind, Outcome, done, failed}
use rtltcp.Io.BufWriter.{BufWriter}
use rtltcp.Server.{Controller}
use rtltcp.Server.Thread.{Thread, control_round}
use rtltcp.Server.Thread.Single.{plain, single_command}
use rtltcp.Serve.{
  control_of, Event, CancelThread, waiting, stopping, finished, is_finished, round, samples,
  end_of_reading, signal, cancelling, Running, accepts, try_send, after_samples, on_samples,
  after_round, found, on_cancel, step,
}

abbrev pub is_waiting : CancelThread → Bool
is_waiting waiting = true
is_waiting stopping = false
is_waiting finished = false

-- The steps that are left.
abbrev pub rank : CancelThread → ℕ
rank waiting = 2
rank stopping = 1
rank finished = 0

pub rank_bound : (c : CancelThread) → rank c ≤ 2
rank_bound waiting = omega arith
rank_bound stopping = omega arith
rank_bound finished = omega arith

module _ (device : Controller) where
  abbrev pub asked : Running device → Bool
  asked s = not (is_waiting s.cancel) || s.pending

  abbrev pub told : Running device → Bool
  told s = not (is_finished s.cancel) || s.should_exit

  -- What holds from the greeting on, and what holds once the reading has ended.
  abbrev pub Watched : Running device → Type 0
  Watched s = (s.reading || asked s ≡ true) × (told s ≡ true)

  abbrev pub Ending : Running device → Type 0
  Ending s = (asked s ≡ true) × (told s ≡ true)

  -- The state but for what the threads do to the client and the device.
  pub record Same (s t : Running device) : Type 0 where
    pub same_cancel : t.cancel ≡ s.cancel
    pub same_exit : t.should_exit ≡ s.should_exit
    pub same_reading : t.reading ≡ s.reading
    pub more_pending : not s.pending || t.pending ≡ true

  pub kept :
      (s t : Running device)
      → t.cancel ≡ s.cancel
      → t.should_exit ≡ s.should_exit
      → t.reading ≡ s.reading
      → t.pending ≡ s.pending
      → Same s t
  kept s t c x r p = record {
    same_cancel = c;
    same_exit = x;
    same_reading = r;
    more_pending = ground (arith, p);
  }

  try_send-Same :
      (s t : Running device)
      → t.cancel ≡ s.cancel
      → t.should_exit ≡ s.should_exit
      → t.reading ≡ s.reading
      → t.pending ≡ s.pending
      → Same s (try_send device t)
  try_send-Same s t c x r p =
      if_keeps (Same s) (accepts device t) (record t { pending = true }) t
        (λ a. record {
          same_cancel = c;
          same_exit = x;
          same_reading = r;
          more_pending = ground arith;
        })
        (λ a. kept s t c x r p)

  after_samples-Same :
      (s : Running device) (n : ℕ) (o : Outcome BufWriter ErrorKind (Unit {0}))
      → Same s (after_samples device (record s { total_bytes_sent = n }) o)
  unfolding after_samples
  after_samples-Same s n (done u w) = kept s _ refl refl refl refl
  after_samples-Same s n (failed e w) = try_send-Same s _ refl refl refl refl

  after_round-Same :
      (s : Running device) (f : Flow (Thread device.Handle (Unit {0})))
      → Same s (after_round device s f)
  unfolding after_round
  after_round-Same s (again t) = kept s _ refl refl refl refl
  after_round-Same s (break t) = kept s _ refl refl refl refl

  pub round-Same : (now : ℕ) (s : Running device) → Same s (step device (round now) s)
  unfolding step
  round-Same now s =
      if_keeps (Same s) s.control_ended s _ (λ h. kept s s refl refl refl refl)
        (λ h. after_round-Same s (
          control_round plain (single_command device) (found device s now) 0 (control_of device s)))

  pub samples-Same : (bytes : List ℕ) (s : Running device) → Same s (step device (samples bytes) s)
  unfolding step on_samples
  samples-Same bytes s =
      if_keeps (Same s) s.reading _ s (λ h. after_samples-Same s _ _)
        (λ h. kept s s refl refl refl refl)

  pub Same-Ending : (s t : Running device) → Same s t → Ending s → Ending t
  Same-Ending s t e (a, b) =
      (rw e.same_cancel (ground (arith, e.more_pending)), rw (e.same_cancel, e.same_exit) b)

  pub Same-Watched : (s t : Running device) → Same s t → Watched s → Watched t
  Same-Watched s t e (a, b) = (
    rw (e.same_cancel, e.same_reading) (ground (arith, e.more_pending)),
    rw (e.same_cancel, e.same_exit) b,
  )

  refused :
      (c : CancelThread) (p : Bool)
      → not p && not (is_finished c) ≡ false
      → not (is_waiting c) || p ≡ true
  refused waiting true h = refl
  refused waiting false h = cc
  refused stopping p h = refl
  refused finished p h = refl

  try_send-Ending : (s : Running device) → told s ≡ true → Ending (try_send device s)
  try_send-Ending s h =
      if_keeps Ending (accepts device s) (record s { pending = true }) s (λ a. (ground arith, h))
        (λ a. (refused s.cancel s.pending a, h))

  pub Ending-Watched : (s : Running device) → Ending s → Watched s
  Ending-Watched s (a, b) = (ground arith, b)

  pub end_of_reading-Watched :
      (s : Running device) → Watched s → Ending (step device end_of_reading s)
  unfolding step
  end_of_reading-Watched s (a, b) =
      if_keeps Ending s.reading (try_send device (record s { reading = false })) s
        (λ h. try_send-Ending (record s { reading = false }) b) (λ h. (ground arith, b))

  pub signal-Ending : (s : Running device) → Ending s → Ending (step device signal s)
  unfolding step
  signal-Ending s (a, b) =
      if_keeps Ending (accepts device s) (record (try_send device s) { shut_down = true })
        (record s { should_exit = true; shut_down = true }) (λ h. try_send-Ending s b)
        (λ h. (a, ground arith))

  pub signal-Watched : (s : Running device) → Watched s → Watched (step device signal s)
  unfolding step
  signal-Watched s (a, b) =
      if_keeps Watched (accepts device s) (record (try_send device s) { shut_down = true })
        (record s { should_exit = true; shut_down = true })
        (λ h. Ending-Watched (try_send device s) (try_send-Ending s b)) (λ h. (a, ground arith))

  pub cancelling-Watched : (s : Running device) → Watched s → Watched (step device cancelling s)
  unfolding step on_cancel
  cancelling-Watched s h = go s.cancel refl h
    where
      go : (c : CancelThread) → s.cancel ≡ c → Watched s → Watched (on_cancel device c s)
      go waiting e k =
          if_keeps Watched s.pending (record s { pending = false; cancel = stopping }) s
            (λ p. (ground arith, refl)) (λ p. k)
      go stopping e k = (ground arith, refl)
      go finished e k = k

  pub cancelling-Ending :
      (s : Running device)
      → Ending s
      → Ending (step device cancelling s)
        × (rank (step device cancelling s).cancel ≡ rank s.cancel - 1)
  unfolding step on_cancel
  cancelling-Ending s h = go s.cancel refl h
    where
      go :
          (c : CancelThread)
          → s.cancel ≡ c
          → Ending s
          → Ending (on_cancel device c s) × (rank (on_cancel device c s).cancel ≡ rank s.cancel - 1)
      go waiting e (a, b) =
          if_keeps (λ t. Ending t × (rank t.cancel ≡ rank s.cancel - 1)) s.pending
            (record s { pending = false; cancel = stopping }) s (λ p. ((refl, refl), rw e refl))
            (λ p. cc (rw (e, p) at a))
      go stopping e k = ((refl, refl), rw e refl)
      go finished e k = (k, rw e refl)

  try_send-told : (s : Running device) → told s ≡ true → told (try_send device s) ≡ true
  try_send-told s h =
      if_keeps (λ t. told t ≡ true) (accepts device s) (record s { pending = true }) s (λ a. h)
        (λ a. h)

  -- Only the cancel thread's last step ends it, and that puts the flag up.
  pub step-told : (e : Event) (s : Running device) → told s ≡ true → told (step device e s) ≡ true
  unfolding step on_cancel
  step-told (round now) s h = let e = round-Same now s in rw (e.same_cancel, e.same_exit) h
  step-told (samples bytes) s h = let e = samples-Same bytes s in rw (e.same_cancel, e.same_exit) h
  step-told end_of_reading s h =
      if_keeps (λ t. told t ≡ true) s.reading (try_send device (record s { reading = false })) s
        (λ a. try_send-told (record s { reading = false }) h) (λ a. h)
  step-told signal s h =
      if_keeps (λ t. told t ≡ true) (accepts device s)
        (record (try_send device s) { shut_down = true })
        (record s { should_exit = true; shut_down = true }) (λ a. try_send-told s h)
        (λ a. ground arith)
  step-told cancelling s h = go s.cancel
    where
      go : (c : CancelThread) → told (on_cancel device c s) ≡ true
      go waiting =
          if_keeps (λ t. told t ≡ true) s.pending (record s { pending = false; cancel = stopping })
            s (λ p. refl) (λ p. h)
      go stopping = refl
      go finished = h
