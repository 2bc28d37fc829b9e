-- ===== src/Replay/Ending.antt =====
-- How the program of src/bin/replay.rs comes to its end.
use rtltcp.Prelude.{
  ◌+◌, Bool, List, not, ◌||◌, if◌then◌else◌, ℕ, zero, suc, ◌≤◌, ◌<◌, ◌≡◌, refl, ◌∙◌, ◌⊎◌, inl, inr,
  true, false, if_keeps, [], Option, none, some, arith,
}
use rtltcp.Prelude.Loop.{Flow, again, break, loop, loop_again, map_flow}
use rtltcp.Io.{ErrorKind, Result, ok, err, done}
use rtltcp.Io.Read.{Reader}
use rtltcp.Io.Write.{Socket, socket_write_all}
use rtltcp.Server.Thread.{is_timeout, is_disconnect_err}
use rtltcp.Capture.{CaptureHeader, read_header}
use rtltcp.Capture.Consumed.{read_chunk-end}
use rtltcp.Replay.{Options, Surroundings, Replay, after_seek, on_chunk, replay_round, replay_loop}
use rtltcp.Replay.Commands.{Line, CommandReader, after_command}
use rtltcp.Replay.Program.{
  Outside, Finished, surroundings, starting, answer, attend, joined, play, main,
}

-- The program exits with an error, or finishes.
abbrev Ends : Result ErrorKind (Option Finished) → Type 0
Ends r = ((e : ErrorKind) × (r ≡ err e)) ⊎ ((f : Finished) × (r ≡ ok (some f)))

-- The command thread stops at such a read: at one that fails, but at a time-out only with the flag up.
abbrev pub gives_up : Bool → Result ErrorKind (List ℕ) → Bool
gives_up quit (ok buf) = false
gives_up quit (err e) = not (is_timeout e) || quit

attend_stops :
    (o : Outside) (i : ℕ) (log : List Line)
    → gives_up (o.reader_quit i) (o.heard i) ≡ true
    → (log' : List Line) × (attend o i log ≡ break log')
unfolding attend after_command
attend_stops o i log = go (o.reader_quit i) (o.heard i)
  where
    go :
        (quit : Bool) (a : Result ErrorKind (List ℕ))
        → gives_up quit a ≡ true
        → (log' : List Line) × (map_flow CommandReader.log (after_command quit log (answer a))
            ≡ break log')
    go quit (ok buf) h = cc
    go quit (err e) h =
        let s : CommandReader = record { stream = []; log = log } in
        if_keeps (λ f. (log' : List Line) × (map_flow CommandReader.log f ≡ break log'))
          (is_disconnect_err e) (break s)
          (if is_timeout e then (if quit then break s else again s) else break s) (λ k. (log, refl))
          (λ k.
            if_keeps (λ f. (log' : List Line) × (map_flow CommandReader.log f ≡ break log'))
              (is_timeout e) (if quit then break s else again s) (break s)
              (λ l.
                if_keeps (λ f. (log' : List Line) × (map_flow CommandReader.log f ≡ break log'))
                  quit (break s) (again s) (λ q. (log, refl)) (λ q. cc (rw (l, q) at h)))
              (λ l. (log, refl)))

split_le : (i n : ℕ) → i ≤ n → (suc i ≤ n) ⊎ (n ≡ i)
split_le i n h = ground arith

-- A loop that stops in a round, if it comes to it, has ended by then.
loop_stops :
    {S : Type 0} (body : ℕ → S → Flow S) (n : ℕ)
    → ((s : S) → (t : S) × (body n s ≡ break t))
    → (fuel i : ℕ) (s : S) → i ≤ n
    → n < i + fuel
    → (t : S) × (loop body fuel i s ≡ some t)
unfolding loop
loop_stops body n stops zero i s h k = absurd (omega (arith, h, k))
loop_stops {S} body n stops (suc fuel) i s h k =
    go (body i s) refl (λ t lt. loop_stops body n stops fuel (suc i) t lt (omega (arith, k)))
  where
    go :
        (f : Flow S)
        → body i s ≡ f
        → ((t : S) → suc i ≤ n → (u : S) × (loop body fuel (suc i) t ≡ some u))
        → (t : S) × (loop body (suc fuel) i s ≡ some t)
    go (break t) e ih = (t, rw (e, loop) refl)
    go (again t) e ih = elim (split_le i n h) [
      | inl lt ↦ let (u, r) = ih t lt in (u, rw (e, loop) r)
      | inr same ↦ let (u, stop) = stops s in cc (same, e, stop)
    ]

pub attending_ends :
    (o : Outside) (rounds n : ℕ)
    → n < rounds
    → gives_up (o.reader_quit n) (o.heard n) ≡ true
    → (c : List Line) × (loop (attend o) rounds 0 [] ≡ some c)
attending_ends o rounds n short up =
    loop_stops (attend o) n (λ log. attend_stops o n log up) rounds 0 [] (omega arith)
      (omega (arith, short))

spins :
    (env : Surroundings) (args : Options) (k : Socket) (fuel i : ℕ)
    → args.loop_mode ≡ true
    → ((i : ℕ) → env.seek i ≡ ok tt)
    → loop (replay_round env args) fuel i (starting [] k) ≡ none
unfolding loop
spins env args k zero i looping sought = refl
spins env args k (suc fuel) i looping sought =
    let round : replay_round env args i (starting [] k) ≡ again (starting [] k) =
      unfold replay_round on_chunk after_seek in rw (read_chunk-end, looping, sought i) refl in
    loop_again (replay_round env args) fuel i round ∙ spins env args k fuel (suc i) looping sought

-- With `--loop` and a capture without chunks the program never ends, once the magic packet is sent:
-- nothing is written to the client that could fail, so not even when the client has left. No fuel is
-- enough, as long as the file can be rewound.
pub main_spins :
    (o : Outside) (args : Options) (file : Reader) (header : CaptureHeader) (client k : Socket)
    (fuel rounds : ℕ)
    → args.loop_mode ≡ true
    → o.open_file ≡ ok file
    → read_header file ≡ done header []
    → o.bind ≡ ok tt
    → o.accept ≡ ok client
    → socket_write_all header.magic_payload client ≡ done tt k
    → o.clone_for_commands ≡ ok tt
    → ((i : ℕ) → o.seek i ≡ ok tt)
    → main o args fuel rounds ≡ ok none
unfolding main play replay_loop joined
main_spins o args file header client k fuel rounds looping opened found bound accepted sent cloned
      sought =
    rw (opened, found, bound, accepted, sent, cloned)
      (rw (spins (surroundings o) args k fuel 0 looping sought) refl)
