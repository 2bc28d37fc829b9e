-- ===== src/Recorder/Content.antt =====
-- What the file of src/bin/capture.rs holds in the end, whenever its buffer was flushed.
use rtltcp.Prelude.{
  ℕ, ◌+◌, ◌*◌, ◌%◌, ◌<◌, ◌≡◌, refl, sym, ap, ◌∙◌, Bool, true, false, Bool-cases, inl, inr, List, [],
  ◌∷◌, ◌++◌, append-nil, append_assoc, length, length-append, All, arith, ◌==◌, leb, if◌then◌else◌,
}
use rtltcp.Prelude.Loop.{Flow, again, break}
use rtltcp.Io.{ErrorKind, Result, ok, err, done}
use rtltcp.Io.Read.{Reader, sending}
use rtltcp.Io.Write.{File, file_write_all, vec_write, write_at_end}
use rtltcp.Bytes.{u32_mod, u64_mod}
use rtltcp.Capture.{CaptureChunk, CaptureHeader, write_chunk}
use rtltcp.Capture.Format.{Fits, chunk_bytes, header_bytes, stored, write_chunk_vec}
use rtltcp.Capture.Header.{healthy, write_header_new}
use rtltcp.Capture.RoundTrip.{read_field}
use rtltcp.Server.Thread.{is_timeout}
use rtltcp.Recorder.{
  Options, Round, Recording, is_empty_buf, on_received, append_chunk, flush_if_full, capture_round,
  capture_loop, finish, capture,
}

abbrev pub chunk_of : ℕ → List ℕ → CaptureChunk
chunk_of stamp bytes = record { timestamp_ns = stamp % u64_mod; payload = bytes }

-- The chunk of a round, if it has one, before the chunks of the rest.
abbrev recorded_before : List CaptureChunk → ℕ → Result ErrorKind (List ℕ) → List CaptureChunk
recorded_before rest stamp (ok bytes) =
    if is_empty_buf bytes then [] else chunk_of stamp bytes ∷ rest
recorded_before rest stamp (err e) = if is_timeout e then rest else []

-- The chunks that arrive before the loop ends: a flag, the duration, the end of the stream, or an
-- error that is no time-out ends it.
unfoldable pub recorded : Options → List Round → List CaptureChunk
recorded args [] = []
recorded args (r ∷ rs) =
    let rest = recorded args rs in
    if r.should_exit
    then []
    else if leb (args.duration * 1_000_000_000) r.elapsed
    then []
    else recorded_before rest r.stamp r.received

-- What `read` gives is shorter than 2 ^ 32 bytes (the program's buffer has 512 KiB).
abbrev pub ShortRead : Result ErrorKind (List ℕ) → Type 0
ShortRead (ok bytes) = length bytes < u32_mod
ShortRead (err e) = Unit {0}

abbrev pub Short : Round → Type 0
Short r = ShortRead r.received

-- A file that is written at its end, without faults.
abbrev appended : List ℕ → List ℕ → ℕ → Recording
appended content buf total = record {
  file = healthy content (length content);
  buf = buf;
  total_bytes = total;
}

file_append :
    (bs content : List ℕ)
    → file_write_all bs (healthy content (length content))
      ≡ done tt (healthy (content ++ bs) (length (content ++ bs)))
unfolding file_write_all
file_append bs content = rw (write_at_end bs content, length-append content bs)

finish-appended :
    (content buf : List ℕ) (total : ℕ)
    → (finish (appended content buf total)).content ≡ content ++ buf
unfolding finish
finish-appended content [] total = sym (append-nil content)
finish-appended content (b ∷ bs) total =
    let full : (length (b ∷ bs) == 0) ≡ false = ground arith in
    rw (full, file_append (b ∷ bs) content)

-- Whatever follows, what is appended to the file and what is kept in the buffer add up.
flush_if_full-appended :
    (args : Options) (content buf : List ℕ) (total : ℕ)
    → (c : List ℕ) × (b : List ℕ) × (flush_if_full args (appended content buf total)
        ≡ again (appended c b total))
      × (c ++ b ≡ content ++ buf)
unfolding flush_if_full
flush_if_full-appended args content buf total =
    elim (Bool-cases (leb args.buffer_mem (length buf))) [
      | inl full ↦
          (content ++ buf, [], rw (full, file_append buf content) refl, append-nil (content ++ buf))
      | inr room ↦ (content, buf, rw room refl, refl)
    ]

append_chunk-appended :
    (args : Options) (stamp : ℕ) (bytes content buf : List ℕ) (total : ℕ)
    → length bytes < u32_mod
    → (c : List ℕ) × (b : List ℕ) × (t : ℕ) × (append_chunk args
          (length bytes)
          (appended content buf total)
          (write_chunk (chunk_of stamp bytes) [])
        ≡ again (appended c b t))
      × (c ++ b ≡ content ++ (buf ++ chunk_bytes (chunk_of stamp bytes)))
unfolding append_chunk
append_chunk-appended args stamp bytes content buf total h =
    let chunk : CaptureChunk = chunk_of stamp bytes in
    let written : write_chunk chunk [] ≡ done tt (chunk_bytes chunk) =
      write_chunk_vec chunk [] (omega arith, h) in
    let t : ℕ = (total + length bytes) % u64_mod in
    let (c, b, flushed, sum) = flush_if_full-appended args content (buf ++ chunk_bytes chunk) t in
    (c, b, t, rw written flushed, sum)

-- The loop, without faults of the file: the file with what the last flush adds holds all that was
-- recorded.
finish-capture_loop :
    (args : Options) (rs : List Round) (content buf : List ℕ) (total : ℕ)
    → All Short rs
    → (finish (capture_loop args rs (appended content buf total))).content
      ≡ content ++ (buf ++ stored (recorded args rs))
unfolding capture_loop recorded capture_round on_received
finish-capture_loop args [] content buf total hs =
    finish-appended content buf total ∙ rw (append-nil buf)
finish-capture_loop args (r ∷ rs) content buf total (h, hs) =
    by_flags r.should_exit (leb (args.duration * 1_000_000_000) r.elapsed)
      (by_result r.received h (λ c b t. finish-capture_loop args rs c b t hs))
  where
    over : (finish (appended content buf total)).content ≡ content ++ (buf ++ [])
    over = finish-appended content buf total ∙ rw (append-nil buf)

    next : Flow Recording → Recording
    next f = elim f [ again s ↦ capture_loop args rs s | break s ↦ s ]

    by_result :
        (x : Result ErrorKind (List ℕ))
        → ShortRead x
        → ((c b : List ℕ) (t : ℕ)
            → (finish (capture_loop args rs (appended c b t))).content
              ≡ c ++ (b ++ stored (recorded args rs)))
        → (finish (next (on_received args r.stamp (appended content buf total) x))).content
          ≡ content ++ (buf ++ stored (recorded_before (recorded args rs) r.stamp x))
    by_result (err e) t ih = elim (Bool-cases (is_timeout e)) [
      | inl wait ↦ rw wait (ih content buf total)
      | inr lost ↦ rw lost over
    ]
    by_result (ok bytes) short ih = elim (Bool-cases (is_empty_buf bytes)) [
      | inl closed ↦ rw closed over
      | inr more ↦ rw more (
          let (c, b, t, run, sum) =
            append_chunk-appended args r.stamp bytes content buf total short in
          rw run (
            ih c b t
            ∙ sym (append_assoc c b (stored (recorded args rs)))
            ∙ ap (λ bs. bs ++ stored (recorded args rs)) sum
            ∙ simp append_assoc))
    ]

    by_flags :
        (x l : Bool)
        → (finish (next (on_received args r.stamp (appended content buf total) r.received))).content
          ≡ content ++ (buf ++ stored (recorded_before (recorded args rs) r.stamp r.received))
        → (finish (
            next (
              if x
              then break (appended content buf total)
              else if l
              then break (appended content buf total)
              else on_received args r.stamp (appended content buf total) r.received))).content
          ≡ content
            ++ (buf
                ++ stored (
                    if x
                    then []
                    else if l
                    then []
                    else recorded_before (recorded args rs) r.stamp r.received))
    by_flags true l e = over
    by_flags false true e = over
    by_flags false false e = e

-- What was recorded fits the format.
pub recorded-Fits : (args : Options) (rs : List Round) → All Short rs → All Fits (recorded args rs)
unfolding recorded
recorded-Fits args [] hs = tt
recorded-Fits args (r ∷ rs) (h, hs) =
    by_flags r.should_exit (leb (args.duration * 1_000_000_000) r.elapsed)
      (by_result r.received h (recorded-Fits args rs hs))
  where
    by_result :
        (x : Result ErrorKind (List ℕ))
        → ShortRead x
        → All Fits (recorded args rs)
        → All Fits (recorded_before (recorded args rs) r.stamp x)
    by_result (err e) t fits = elim (Bool-cases (is_timeout e)) [
      | inl w ↦ rw w fits
      | inr l ↦ rw l tt
    ]
    by_result (ok bytes) short fits = elim (Bool-cases (is_empty_buf bytes)) [
      | inl closed ↦ rw closed tt
      | inr more ↦ rw more ((omega arith, short), fits)
    ]

    by_flags :
        (x l : Bool)
        → All Fits (recorded_before (recorded args rs) r.stamp r.received)
        → All Fits (
            if x
            then []
            else if l
            then []
            else recorded_before (recorded args rs) r.stamp r.received)
    by_flags true l fits = tt
    by_flags false true fits = tt
    by_flags false false fits = fits

-- A capture of a server that sends its magic packet whole, into a new file without faults, no read
-- of the loop giving 2 ^ 32 bytes: however the flushes fall, the file holds in the end the header
-- with the packet and one chunk for each read that gave bytes before the loop ended.
pub capture-recorded :
    (args : Options) (magic : List ℕ) (s : Reader) (rs : List Round)
    → length magic ≡ 12
    → All Short rs
    → (f : File) × (capture args (sending magic ++ s) rs (healthy [] 0) ≡ ok f)
      × (f.content ≡ header_bytes (record { magic_payload = magic }) ++ stored (recorded args rs))
unfolding capture
capture-recorded args magic s rs twelve short =
    let h : CaptureHeader = record { magic_payload = magic } in
    (
      finish (capture_loop args rs (appended (header_bytes h) [] 0)),
      rw (read_field 12 magic s twelve, write_header_new h (omega arith)),
      finish-capture_loop args rs (header_bytes h) [] 0 short,
    )
