-- ===== src/Serve/Samples.antt =====
-- What the client of `run_serve_single` of src/main.rs is sent.
use mathlib.Core.Path.{subst}
use rtltcp.Prelude.{
  if_keeps, if◌then◌else◌, ℕ, ◌+◌, ◌%◌, ◌≡◌, refl, ap, ◌∙◌, Bool, true, false, List, [], All, ◌∷◌,
  ◌++◌, append-nil, append_assoc, length, arith,
}
use rtltcp.Io.{ok, ◌>>◌}
use rtltcp.Io.Read.{Reader}
use rtltcp.Io.BufWriter.{empty, buffered_write_all, flush, write_flush}
use rtltcp.Bytes.{u64_mod}
use rtltcp.Control.Whitelist.{Addresses}
use rtltcp.Args.{Args}
use rtltcp.Proxy.Agreement.{link}
use rtltcp.Server.{Controller}
use rtltcp.Serve.{
  Outside, CancelThread, waiting, stopping, finished, Event, round, samples, end_of_reading, signal,
  cancelling, Running, with_writer, accepts, try_send, on_samples, on_cancel, step, run, begin,
  open_single, after_greeting, serve_single,
}
use rtltcp.Serve.Cancel.{round-Same, samples-Same}
use rtltcp.Serve.Whole.{
  Sent, nothing, buffer, Whole, same_wire, try_send-Whole, after_round-Whole, writer-Whole,
  on_samples-Whole, cancel-Whole,
}

-- What an event hands to the callback, if the device is being read, and whether it still is.
abbrev given : Bool → Event → List (List ℕ)
given true (samples b) = b ∷ []
given true (round now) = []
given true end_of_reading = []
given true signal = []
given true cancelling = []
given false e = []

abbrev still : Bool → Event → Bool
still r end_of_reading = false
still r (round now) = r
still r (samples b) = r
still r signal = r
still r cancelling = r

-- No signal, which would shut the stream down.
abbrev pub is_calm : Event → Bool
is_calm signal = false
is_calm (round now) = true
is_calm (samples b) = true
is_calm end_of_reading = true
is_calm cancelling = true

abbrev pub IsCalm : List Event → Type 0
IsCalm es = All (λ e. is_calm e ≡ true) es

abbrev pub delivered : Bool → List Event → List (List ℕ)
delivered r [] = []
delivered r (e ∷ es) = given r e ++ delivered (still r e) es

abbrev pub volume : List (List ℕ) → ℕ
volume [] = 0
volume (b ∷ bs) = length b + volume bs

module _ (device : Controller) where
  -- Where nothing is given to the callback.
  as_it_was :
      (bufs : List (List ℕ)) (n : ℕ) (t : Running device)
      → Whole device bufs n t
      → Whole device (bufs ++ []) (n + 0) t
  as_it_was bufs n t w = rw (append-nil bufs) (record {
    out = w.out;
    outgoing = w.outgoing;
    sent = w.sent;
    buffered_empty = w.buffered_empty;
    connected = w.connected;
    counted = omega (arith, w.counted);
  })

  samples-Whole :
      (bufs : List (List ℕ)) (n : ℕ) (b : List ℕ) (s : Running device) (r : Bool)
      → Whole device bufs n s
      → Whole device
          (bufs ++ given r (samples b))
          (n + volume (given r (samples b)))
          (if r then on_samples device b s else s)
  samples-Whole bufs n b s false w = as_it_was bufs n s w
  samples-Whole bufs n b s true w =
      let v = on_samples-Whole device bufs n b s w in
      record {
        out = v.out;
        outgoing = v.outgoing;
        sent = v.sent;
        buffered_empty = v.buffered_empty;
        connected = v.connected;
        counted = omega (arith, v.counted);
      }

  quiet :
      (r : Bool) → (given r end_of_reading ≡ []) × (given r signal ≡ []) × (given r cancelling ≡ [])
  quiet true = (refl, refl, refl)
  quiet false = (refl, refl, refl)

  round_quiet : (r : Bool) (now : ℕ) → given r (round now) ≡ []
  round_quiet true now = refl
  round_quiet false now = refl

  step-Whole :
      (bufs : List (List ℕ)) (n : ℕ) (e : Event) (s : Running device)
      → is_calm e ≡ true
      → Whole device bufs n s
      → Whole device (bufs ++ given s.reading e) (n + volume (given s.reading e)) (step device e s)
  unfolding step
  step-Whole bufs n (round now) s calm w =
      rw (round_quiet s.reading now) (as_it_was bufs n _ (after_round-Whole device bufs n now s w))
  step-Whole bufs n (samples b) s calm w = samples-Whole bufs n b s s.reading w
  step-Whole bufs n end_of_reading s calm w = rw (quiet s.reading).0 (
      as_it_was bufs n _ (
        if_keeps (Whole device bufs n) s.reading (try_send device (record s { reading = false })) s
          (λ a.
            try_send-Whole device bufs n (record s { reading = false })
              (same_wire device bufs n s _ w refl refl refl refl))
          (λ a. w)))
  step-Whole bufs n signal s calm w = cc
  step-Whole bufs n cancelling s calm w =
      rw (quiet s.reading).2 (as_it_was bufs n _ (cancel-Whole device bufs n s.cancel s w))

  try_send-reading : (s : Running device) → (try_send device s).reading ≡ s.reading
  try_send-reading s =
      if_keeps (λ t. t.reading ≡ s.reading) (accepts device s) (record s { pending = true }) s
        (λ a. refl) (λ a. refl)

  step-reading : (e : Event) (s : Running device) → (step device e s).reading ≡ still s.reading e
  unfolding step on_cancel
  step-reading (round now) s = (round-Same device now s).same_reading
  step-reading (samples b) s = (samples-Same device b s).same_reading
  step-reading end_of_reading s =
      if_keeps (λ t. t.reading ≡ false) s.reading (try_send device (record s { reading = false })) s
        (λ a. try_send-reading (record s { reading = false })) (λ a. a)
  step-reading signal s =
      if_keeps (λ t. t.reading ≡ s.reading) (accepts device s)
        (record (try_send device s) { shut_down = true })
        (record s { should_exit = true; shut_down = true }) (λ a. try_send-reading s) (λ a. refl)
  step-reading cancelling s = go s.cancel
    where
      go : (c : CancelThread) → (on_cancel device c s).reading ≡ s.reading
      go waiting =
          if_keeps (λ t. t.reading ≡ s.reading) s.pending
            (record s { pending = false; cancel = stopping }) s (λ a. refl) (λ a. refl)
      go stopping = refl
      go finished = refl

  volume-append : (xs ys : List (List ℕ)) → volume (xs ++ ys) ≡ volume xs + volume ys
  volume-append [] ys = omega arith
  volume-append (x ∷ xs) ys = omega (arith, volume-append xs ys)

  run-Whole :
      (es : List Event) (bufs : List (List ℕ)) (n : ℕ) (s : Running device)
      → IsCalm es
      → Whole device bufs n s
      → Whole device
          (bufs ++ delivered s.reading es)
          (n + volume (delivered s.reading es))
          (run device es s)
  unfolding run
  run-Whole [] bufs n s calm w = as_it_was bufs n s w
  run-Whole (e ∷ es) bufs n s (calm, later) w =
      let g : List (List ℕ) = given s.reading e in
      let d : List (List ℕ) = delivered (still s.reading e) es in
      let v : Whole device ((bufs ++ g) ++ d) ((n + volume g) + volume d)
          (run device es (step device e s)) =
        rw (← step-reading e s) (
          run-Whole es (bufs ++ g) (n + volume g) (step device e s) later
            (step-Whole bufs n e s calm w)) in
      let shape = append_assoc bufs g d in
      record {
        out = v.out;
        outgoing = v.outgoing;
        sent = rw shape at v.sent;
        buffered_empty = v.buffered_empty;
        connected = v.connected;
        counted = v.counted ∙ ap (λ m. m % u64_mod) (omega (arith, volume-append g d));
      }

  delivered_unread : (es : List Event) → delivered false es ≡ []
  delivered_unread [] = refl
  delivered_unread (round now ∷ es) = delivered_unread es
  delivered_unread (samples b ∷ es) = delivered_unread es
  delivered_unread (end_of_reading ∷ es) = delivered_unread es
  delivered_unread (signal ∷ es) = delivered_unread es
  delivered_unread (cancelling ∷ es) = delivered_unread es

  run_early :
      (es : List Event) (s : Running device)
      → s.reading ≡ false
      → IsCalm es
      → Whole device [] 0 s
      → Whole device [] 0 (run device es s)
  run_early es s idle calm w =
      subst (λ bufs. Whole device ([] ++ bufs) (0 + volume bufs) (run device es s))
        (ap (λ r. delivered r es) idle ∙ delivered_unread es) (run-Whole es [] 0 s calm w)

  module _ (net : Addresses) (magic : List ℕ) (o : Outside device.Handle) where
    -- A client of the single-client mode that takes every write at once is sent, while no signal comes
    -- and whatever the order of the steps of the threads and whatever it sends itself: the magic
    -- packet and then the buffers of samples that are read before the reading ends, all whole, in
    -- their order and none twice, with nothing but whole acknowledgements between them or around
    -- them; and the bytes of the samples are counted, modulo 2^64.
    pub serve_single-Sent :
        (args : Args) (started started_later : ℕ) (early late : List Event) (r : Reader)
        (ctl : device.Handle)
        → open_single device net magic o args ≡ ok (link r [], ctl)
        → IsCalm early
        → IsCalm late
        → (s : Running device) × (serve_single device net magic o args started started_later early
              late
            ≡ ok s)
          × Sent (magic ∷ delivered true late) s.control.stream.outgoing.sent
          × (s.total_bytes_sent ≡ volume (delivered true late) % u64_mod)
    unfolding serve_single after_greeting
    serve_single-Sent args started started_later early late r ctl opened calm calm_later =
        let s0 : Running device =
          begin device net magic o args started started_later (link r []) ctl in
        let s1 : Running device = run device early s0 in
        let w : Whole device [] 0 s1 = run_early early s0 refl calm (record {
          out = [];
          outgoing = refl;
          sent = nothing;
          buffered_empty = refl;
          connected = refl;
          counted = omega arith;
        }) in
        let s2 : Running device =
          record (with_writer device (empty s1.capacity (w.out ++ magic)) s1) { reading = true } in
        let v : Whole device (magic ∷ delivered true late) (0 + volume (delivered true late))
            (run device late s2) =
          run-Whole late (magic ∷ []) 0 s2 calm_later (record {
            out = w.out ++ magic;
            outgoing = refl;
            sent = buffer magic w.sent;
            buffered_empty = refl;
            connected = w.connected;
            counted = w.counted;
          }) in
        (
          run device late s2,
          rw opened (
              ap (after_greeting device net magic o late s1) (
                ap (buffered_write_all magic >> flush) (writer-Whole device [] 0 s1 w)
                ∙ write_flush magic w.out s1.capacity)),
          rw v.outgoing v.sent,
          v.counted ∙ ap (λ m. m % u64_mod) (omega arith),
        )
