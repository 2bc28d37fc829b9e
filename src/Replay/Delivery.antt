-- ===== src/Replay/Delivery.antt =====
-- What the client of src/bin/replay.rs receives of a capture, and at what intervals.
use rtltcp.Prelude.{
  ℕ, zero, suc, ◌+◌, ◌-◌, ◌*◌, ◌<◌, ◌≡◌, refl, sym, ap, ◌∙◌, Bool, true, false, Bool-cases, inl,
  inr, List, [], ◌∷◌, ◌++◌, map, concat, map-append, append-nil, append_assoc, length, All, arith,
  Option, none, some, ltb, if◌then◌else◌,
}
use rtltcp.Prelude.Loop.{again, break, loop, loop_again, loop_break}
use rtltcp.Io.{ok}
use rtltcp.Io.Read.{Reader, byte, sending, read_exact_short}
use rtltcp.Io.Write.{socket_write_all}
use native.Mathlib.Nat.{zero-add, zero-mul, suc-mul}
use rtltcp.Bytes.{u32_mod}
use rtltcp.Capture.{CaptureChunk, CaptureHeader, read_chunk}
use rtltcp.Capture.Format.{Fits, chunk_bytes, header_bytes, stored}
use rtltcp.Capture.RoundTrip.{read_chunk-chunk_bytes, read_header-header_bytes}
use rtltcp.Replay.{
  Options, Surroundings, Replay, elapsed_since, sleep_since, send_chunk, replay_round, replay_loop,
  replay,
}

-- The pause before a chunk, unless it is the first or the pause has no length.
abbrev pub gap : Options → Option ℕ → ℕ → List ℕ
gap args none timestamp_ns = []
gap args (some prev) timestamp_ns =
    let delta_ns = args.pause (elapsed_since timestamp_ns prev) in
    if ltb 0 delta_ns then delta_ns ∷ [] else []

pub gaps : Options → Option ℕ → List CaptureChunk → List ℕ
gaps args prev [] = []
gaps args prev (c ∷ cs) = gap args prev c.timestamp_ns ++ gaps args (some c.timestamp_ns) cs

abbrev pub payloads_of : List CaptureChunk → List ℕ
payloads_of cs = concat (map CaptureChunk.payload cs)

-- The state of the loop before and behind some chunks.
abbrev pub playing : Reader → Reader → List ℕ → Option ℕ → List ℕ → Replay
playing first ahead sent prev slept = record {
  first_chunk = first;
  ahead = ahead;
  client = record { sent = sent; faults = [] };
  prev_timestamp = prev;
  slept = slept;
}

abbrev last_timestamp : Bool → Option ℕ → List CaptureChunk → Option ℕ
last_timestamp paced prev [] = prev
last_timestamp paced prev (c ∷ cs) =
    last_timestamp paced (if paced then some c.timestamp_ns else prev) cs

abbrev pub pauses : Options → Option ℕ → List CaptureChunk → List ℕ
pauses args prev cs = if args.paced then gaps args prev cs else []

abbrev next_timestamp : Options → Option ℕ → CaptureChunk → Option ℕ
next_timestamp args prev c = if args.paced then some c.timestamp_ns else prev

pauses_cons :
    (args : Options) (prev : Option ℕ) (c : CaptureChunk) (cs : List CaptureChunk)
    → pauses args prev (c ∷ cs)
      ≡ (if args.paced then gap args prev c.timestamp_ns else [])
        ++ pauses args (next_timestamp args prev c) cs
unfolding gaps
pauses_cons args prev c cs = elim (Bool-cases args.paced) [ inl t ↦ rw t | inr f ↦ rw f ]

sleep_since-gap :
    (args : Options) (t : ℕ) (prev : Option ℕ) (slept : List ℕ)
    → sleep_since args t prev slept ≡ slept ++ gap args prev t
unfolding sleep_since
sleep_since-gap args t none slept = rw append-nil
sleep_since-gap args t (some prev) slept =
    elim (Bool-cases (ltb 0 (args.pause (elapsed_since t prev)))) [
      | inl long ↦ rw long
      | inr short ↦ rw (short, append-nil slept)
    ]

send_chunk-playing :
    (args : Options) (c : CaptureChunk) (first rest : Reader) (sent slept : List ℕ)
    (prev : Option ℕ)
    → send_chunk args c (playing first rest sent prev slept)
      ≡ again (
          playing first rest
            (sent ++ c.payload)
            (next_timestamp args prev c)
            (slept ++ (if args.paced then gap args prev c.timestamp_ns else [])))
unfolding send_chunk socket_write_all
send_chunk-playing args c first rest sent slept prev = elim (Bool-cases args.paced) [
  | inl t ↦ rw (t, sleep_since-gap args c.timestamp_ns prev slept)
  | inr f ↦ rw (f, append-nil slept)
]

replay_round-chunk :
    (env : Surroundings) (args : Options) (i : ℕ) (first rest : Reader) (c : CaptureChunk)
    (sent slept : List ℕ) (prev : Option ℕ)
    → Fits c
    → env.client_quit i ≡ false
    → replay_round env args i (playing first (sending (chunk_bytes c) ++ rest) sent prev slept)
      ≡ again (
          playing first rest
            (sent ++ c.payload)
            (next_timestamp args prev c)
            (slept ++ (if args.paced then gap args prev c.timestamp_ns else [])))
unfolding replay_round
replay_round-chunk env args i first rest c sent slept prev fits running =
    rw (read_chunk-chunk_bytes c rest fits, running)
      (send_chunk-playing args c first rest sent slept prev)

-- One round for each of the chunks that come next.
loop-chunks :
    (env : Surroundings) (args : Options) (first rest : Reader) (cs : List CaptureChunk)
    (fuel i : ℕ) (sent slept : List ℕ) (prev : Option ℕ)
    → All Fits cs
    → ((n : ℕ) → env.client_quit n ≡ false)
    → loop
        (replay_round env args)
        (length cs + fuel)
        i
        (playing first (sending (stored cs) ++ rest) sent prev slept)
      ≡ loop (replay_round env args) fuel (length cs + i) (
          playing first rest
            (sent ++ payloads_of cs)
            (last_timestamp args.paced prev cs)
            (slept ++ pauses args prev cs))
unfolding gaps
loop-chunks env args first rest [] fuel i sent slept prev fits running =
    let no_pause : pauses args prev [] ≡ [] = elim (Bool-cases args.paced) [
      | inl t ↦ rw t
      | inr f ↦ rw f
    ] in
    rw (zero-add fuel, zero-add i, no_pause, append-nil sent, append-nil slept)
loop-chunks env args first rest (c ∷ cs) fuel i sent slept prev (fit, fits) running =
    let more : suc (length cs) + fuel ≡ suc (length cs + fuel) = omega arith in
    let later : suc (length cs) + i ≡ length cs + suc i = omega arith in
    rw
      (
        more,
        later,
        map-append byte (chunk_bytes c) (stored cs),
        append_assoc (sending (chunk_bytes c)),
        pauses_cons args prev c cs,
        ← append_assoc sent c.payload,
        ← append_assoc slept,
      )
      (loop_again (replay_round env args) (length cs + fuel) i (
          replay_round-chunk env args i first (sending (stored cs) ++ rest) c sent slept prev fit
            (running i))
        ∙ loop-chunks env args first rest cs fuel (suc i) _ _ _ fits running)

-- At the end of the file the loop ends, or starts again from the first chunk.
replay_round_end :
    (env : Surroundings) (args : Options) (i : ℕ) (first : Reader) (sent slept : List ℕ)
    (prev : Option ℕ)
    → args.loop_mode ≡ false
    → replay_round env args i (playing first [] sent prev slept)
      ≡ break (playing first [] sent prev slept)
unfolding replay_round read_chunk
replay_round_end env args i first sent slept prev once =
    rw (read_exact_short 8 [] (omega arith), once)

replay_round_rewind :
    (env : Surroundings) (args : Options) (i : ℕ) (first : Reader) (sent slept : List ℕ)
    (prev : Option ℕ)
    → args.loop_mode ≡ true
    → env.seek i ≡ ok tt
    → replay_round env args i (playing first [] sent prev slept)
      ≡ again (playing first first sent none slept)
unfolding replay_round read_chunk
replay_round_rewind env args i first sent slept prev loops found =
    rw (read_exact_short 8 [] (omega arith), loops, found)

-- All chunks of the file from the first, at some place in the loop.
loop-stored :
    (env : Surroundings) (args : Options) (cs : List CaptureChunk) (fuel i : ℕ)
    (sent slept : List ℕ)
    → All Fits cs
    → ((n : ℕ) → env.client_quit n ≡ false)
    → loop
        (replay_round env args)
        (length cs + fuel)
        i
        (playing (sending (stored cs)) (sending (stored cs)) sent none slept)
      ≡ loop (replay_round env args) fuel (length cs + i) (
          playing
            (sending (stored cs))
            []
            (sent ++ payloads_of cs)
            (last_timestamp args.paced none cs)
            (slept ++ pauses args none cs))
loop-stored env args cs fuel i sent slept fits running =
    let first : Reader = sending (stored cs) in
    ap (λ bs. loop (replay_round env args) (length cs + fuel) i (playing first bs sent none slept))
      (sym (append-nil first))
    ∙ loop-chunks env args first [] cs fuel i sent slept none fits running

-- A capture file that is played once, to a client that takes every write and never quits: with fuel
-- for one round more than there are chunks, the loop ends, the client has the magic packet and the
-- data of all chunks in their order, and the pauses are those between the time stamps, if paced.
pub replay-Fits :
    (env : Surroundings) (args : Options) (h : CaptureHeader) (cs : List CaptureChunk) (fuel : ℕ)
    (sent : List ℕ)
    → length h.magic_payload < u32_mod
    → All Fits cs
    → ((n : ℕ) → env.client_quit n ≡ false)
    → args.loop_mode ≡ false
    → length cs < fuel
    → (s : Replay) × (replay env args fuel
          (sending (header_bytes h ++ stored cs))
          (record { sent = sent; faults = [] })
        ≡ ok (some s))
      × (s.client.sent ≡ sent ++ (h.magic_payload ++ payloads_of cs))
      × (s.slept ≡ pauses args none cs)
unfolding replay replay_loop socket_write_all
replay-Fits env args h cs fuel sent small fits running once enough =
    let rest : Reader = sending (stored cs) in
    let split : fuel ≡ length cs + suc (fuel - suc (length cs)) = omega arith in
    (
      playing rest [] ((sent ++ h.magic_payload) ++ payloads_of cs)
          (last_timestamp args.paced none cs) (pauses args none cs),
      rw
          (
            map-append byte (header_bytes h) (stored cs),
            read_header-header_bytes h rest small,
            split,
          )
          (ap (λ r. ok r)
            (loop-stored env args cs _ 0 (sent ++ h.magic_payload) [] fits running
              ∙ loop_break (replay_round env args) _ _
                  (replay_round_end env args _ rest _ _ _ once))),
      append_assoc sent h.magic_payload (payloads_of cs),
      refl,
    )

-- The data of the capture, `passes` times.
abbrev pub repeated : ℕ → List ℕ → List ℕ
repeated zero bs = []
repeated (suc n) bs = bs ++ repeated n bs

-- With `--loop`, to a client that takes every write, no quit flag being up and the file being
-- rewound whenever it is asked, the data of all chunks is sent again and again: after any number of passes, one round for each chunk and one for the end of the file, the
-- loop stands at the first chunk again, with no time stamp kept, and goes on.
pub replay_loop-passes :
    (env : Surroundings) (args : Options) (cs : List CaptureChunk) (passes fuel i : ℕ)
    (sent slept : List ℕ)
    → All Fits cs
    → ((n : ℕ) → env.client_quit n ≡ false)
    → ((n : ℕ) → env.seek n ≡ ok tt)
    → args.loop_mode ≡ true
    → loop
        (replay_round env args)
        (passes * suc (length cs) + fuel)
        i
        (playing (sending (stored cs)) (sending (stored cs)) sent none slept)
      ≡ loop (replay_round env args) fuel (passes * suc (length cs) + i) (
          playing
            (sending (stored cs))
            (sending (stored cs))
            (sent ++ repeated passes (payloads_of cs))
            none
            (slept ++ repeated passes (pauses args none cs)))
replay_loop-passes env args cs zero fuel i sent slept fits running found loops =
    rw (zero-mul (suc (length cs)), zero-add fuel, zero-add i, append-nil sent, append-nil slept)
replay_loop-passes env args cs (suc n) fuel i sent slept fits running found loops =
    let rounds : ℕ = n * suc (length cs) in
    let more : suc n * suc (length cs) + fuel ≡ length cs + suc (rounds + fuel) =
      omega (arith, suc-mul n (suc (length cs))) in
    let later : suc n * suc (length cs) + i ≡ rounds + suc (length cs + i) =
      omega (arith, suc-mul n (suc (length cs))) in
    rw (more, later, ← append_assoc sent, ← append_assoc slept)
      (loop-stored env args cs (suc (rounds + fuel)) i sent slept fits running
        ∙ loop_again (replay_round env args) (rounds + fuel) (length cs + i) (
            replay_round_rewind env args (length cs + i) (sending (stored cs)) _ _ _ loops
              (found _))
        ∙ replay_loop-passes env args cs n fuel (suc (length cs + i)) _ _ fits running found loops)
