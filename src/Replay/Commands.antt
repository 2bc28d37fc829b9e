-- ===== src/Replay/Commands.antt =====
-- The thread of src/bin/replay.rs that reads the client's commands and writes them to the log. Here
-- the log lines are the result.
use rtltcp.Prelude.{
  ℕ, zero, suc, ◌<◌, ◌≤◌, ◌≡◌, refl, ap, ◌∙◌, Bool, List, [], ◌∷◌, ◌++◌, map, append-nil,
  append_assoc, Option, some, length, All, arith, drop, if◌then◌else◌,
}
use rtltcp.Prelude.Loop.{Flow, again, break, loop, loop_again, loop_break, loop_total}
use rtltcp.Io.{ErrorKind, unexpected_eof, Outcome, done, failed}
use rtltcp.Io.Read.{Reader, rest, read_exact, sending, read_exact_short, read_exact_consumes}
use rtltcp.Control.{command_header_size}
use rtltcp.Server.{match_command, command_byte, payload_u32, payload_i32}
use rtltcp.Server.Commands.{
  Command, frequency, sample_rate, gain_mode, tuner_gain, ppm, agc, Encodable, encode,
  length-encode, match_command-encode, branch,
}
use rtltcp.Server.Delivery.{frames}
use rtltcp.Server.Frames.{read_frame}
use rtltcp.Server.Thread.{is_timeout, is_disconnect_err}

pub data Line : Type 0 where
  command : Command → Line
  chain_detect : Line
  unknown : List ℕ → Line

pub record CommandReader : Type 0 where
  pub stream : Reader
  pub log : List Line

unfoldable pub line_of : List ℕ → Line
line_of buf =
    match_command (command_byte buf) (command (frequency (payload_u32 buf)))
      (command (sample_rate (payload_u32 buf))) (command (gain_mode (payload_i32 buf)))
      (command (tuner_gain (payload_i32 buf))) (command (ppm (payload_i32 buf)))
      (command (agc (payload_u32 buf))) chain_detect (unknown (drop 1 buf))

unfoldable pub after_command :
    Bool → List Line → Outcome Reader ErrorKind (List ℕ) → Flow CommandReader
after_command reader_quit log (done buf rest) =
    again (record { stream = rest; log = log ++ (line_of buf ∷ []) })
after_command reader_quit log (failed e rest) =
    let s : CommandReader = record { stream = rest; log = log } in
    if is_disconnect_err e
    then break s
    else if is_timeout e
    then (if reader_quit then break s else again s)
    else break s

-- The quit flag is given for each round.
unfoldable pub command_round : (ℕ → Bool) → ℕ → CommandReader → Flow CommandReader
unfolding after_command
command_round reader_quit i s =
    after_command (reader_quit i) s.log (read_exact command_header_size s.stream)

-- On fuel; `none` means that it ran out.
unfoldable pub command_reader : (ℕ → Bool) → ℕ → CommandReader → Option CommandReader
command_reader reader_quit fuel s = loop (command_round reader_quit) fuel 0 s

line_of-encode : (c : Command) → Encodable c → line_of (encode c) ≡ command c
unfolding line_of
line_of-encode c h =
    match_command-encode c (λ x. command (frequency x)) (λ x. command (sample_rate x))
      (λ x. command (gain_mode x)) (λ x. command (tuner_gain x)) (λ x. command (ppm x))
      (λ x. command (agc x)) chain_detect (unknown (drop 1 (encode c))) h
    ∙ same c
  where
    same :
        (d : Command)
        → branch d
            (λ x. command (frequency x))
            (λ x. command (sample_rate x))
            (λ x. command (gain_mode x))
            (λ x. command (tuner_gain x))
            (λ x. command (ppm x))
            (λ x. command (agc x))
          ≡ command d
    same (frequency x) = refl
    same (sample_rate x) = refl
    same (gain_mode x) = refl
    same (tuner_gain x) = refl
    same (ppm x) = refl
    same (agc x) = refl

loop-frames :
    (reader_quit : ℕ → Bool) (cs : List Command) (fuel i : ℕ) (log : List Line)
    → All Encodable cs
    → length cs < fuel
    → loop (command_round reader_quit) fuel i (record { stream = sending (frames cs); log = log })
      ≡ some (record { stream = []; log = log ++ map command cs })
loop-frames reader_quit cs zero i log fits enough = absurd (omega arith)
loop-frames reader_quit [] (suc fuel) i log fits enough =
    loop_break (command_round reader_quit) fuel i (
      unfold command_round after_command in
      rw (read_exact_short 5 [] (omega arith), append-nil log))
loop-frames reader_quit (c ∷ cs) (suc fuel) i log (fit, fits) enough =
    let logged : command_round reader_quit i
          (record { stream = sending (frames (c ∷ cs)); log = log })
        ≡ again (record { stream = sending (frames cs); log = log ++ (command c ∷ []) }) =
      unfold command_round after_command in
      rw (read_frame (encode c) (frames cs) (length-encode c), line_of-encode c fit) in
    loop_again (command_round reader_quit) fuel i logged
    ∙ loop-frames reader_quit cs fuel (suc i) (log ++ (command c ∷ [])) fits (omega arith)
    ∙ rw (append_assoc log (command c ∷ []) (map command cs))

-- Commands that arrive whole, before the client leaves, are logged as what they are, in their order;
-- with fuel for one round more than there are commands, the thread then ends.
pub command_reader-frames :
    (reader_quit : ℕ → Bool) (cs : List Command) (fuel : ℕ)
    → All Encodable cs
    → length cs < fuel
    → command_reader reader_quit fuel (record { stream = sending (frames cs); log = [] })
      ≡ some (record { stream = []; log = map command cs })
unfolding command_reader
command_reader-frames reader_quit cs fuel fits enough =
    loop-frames reader_quit cs fuel 0 [] fits enough

after_command_again :
    (reader_quit : Bool) (log : List Line) (o : Outcome Reader ErrorKind (List ℕ))
    (t : CommandReader)
    → after_command reader_quit log o ≡ again t
    → length t.stream ≤ length (rest o)
unfolding after_command
after_command_again reader_quit log (done buf r) t e = ground arith
after_command_again reader_quit log (failed k r) t e = ground arith

command_round_falls :
    (reader_quit : ℕ → Bool) (i : ℕ) (s t : CommandReader)
    → command_round reader_quit i s ≡ again t
    → length t.stream < length s.stream
unfolding command_round
command_round_falls reader_quit i s t e = go s.stream refl
  where
    go : (r : Reader) → s.stream ≡ r → length t.stream < length s.stream
    go [] h =
        let over : read_exact 5 s.stream ≡ failed unexpected_eof [] =
          ap (read_exact 5) h ∙ read_exact_short 5 [] (omega arith) in
        cc (rw over at e)
    go (v ∷ vs) h =
        let used : length (rest (read_exact 5 s.stream)) ≤ length vs =
          rw h (read_exact_consumes 4 v vs) in
        omega (
          arith,
          ap length h,
          used,
          after_command_again (reader_quit i) s.log (read_exact 5 s.stream) t e,
        )

-- Whatever the client sends, with whatever failures, and whenever the flag goes up, the thread ends
-- within one round for each arrival and one more.
pub command_reader_ends :
    (reader_quit : ℕ → Bool) (fuel : ℕ) (s : CommandReader)
    → length s.stream < fuel
    → (t : CommandReader) × (command_reader reader_quit fuel s ≡ some t)
unfolding command_reader
command_reader_ends reader_quit fuel s h =
    let (t, run, u) =
      loop_total (command_round reader_quit) (λ s. Unit {0}) (λ s. length s.stream)
        (command_round_falls reader_quit) (λ i s u. tt) fuel 0 s h tt in
    (t, run)
