-- ===== src/Server/Frames.antt =====
-- The control threads of src/main.rs against the description of the commands: a client's frames,
-- plain or encrypted, have the effect of its commands, those that the rate limiter lets through.
use rtltcp.Prelude.{
  ℕ, ◌<◌, ◌≡◌, refl, ap, ◌∙◌, false, List, [], ◌∷◌, ◌++◌, map-append, Option, some, length, All,
  arith,
}
use rtltcp.Io.{done}
use rtltcp.Io.Read.{byte, sending, read_exact, read_exact-append}
use rtltcp.Encryption.{StreamCipher, CipherLaws}
use rtltcp.Server.{
  Controller, on_set_frequency, on_set_sample_rate, on_set_gain_mode, on_set_tuner_gain, on_set_ppm,
  on_set_agc,
}
use rtltcp.Server.Commands.{
  Command, frequency, sample_rate, gain_mode, tuner_gain, ppm, agc, Encodable, encode,
  length-encode, perform, match_command-encode, branch, on_set_frequency-perform,
  on_set_sample_rate-perform, on_set_gain_mode-perform, on_set_tuner_gain-perform,
  on_set_ppm-perform, on_set_agc-perform,
}
use rtltcp.Server.Thread.{Tick, Thread, on_board, control_loop}
use rtltcp.Server.Thread.Single.{plain, single_command, single_loop}
use rtltcp.Server.Thread.Master.{Session, decrypt, master_command, master_loop}
use rtltcp.Server.Delivery.{let_through, perform_all, frames, Delivers, control_loop-Delivers}

branch_board :
    (device : Controller) {Session : Type 0} (s : Thread device.Handle Session) (c : Command)
    → branch c
        (λ f. on_board s (on_set_frequency device f))
        (λ r. on_board s (on_set_sample_rate device r))
        (λ m. on_board s (on_set_gain_mode device m))
        (λ g. on_board s (on_set_tuner_gain device g))
        (λ p. on_board s (on_set_ppm device p))
        (λ a. on_board s (on_set_agc device a))
      ≡ on_board s (perform device c)
branch_board device s (frequency f) =
    ap (λ b. record s { board = b }) (on_set_frequency-perform device f s.board)
branch_board device s (sample_rate r) =
    ap (λ b. record s { board = b }) (on_set_sample_rate-perform device r s.board)
branch_board device s (gain_mode m) =
    ap (λ b. record s { board = b }) (on_set_gain_mode-perform device m s.board)
branch_board device s (tuner_gain g) =
    ap (λ b. record s { board = b }) (on_set_tuner_gain-perform device g s.board)
branch_board device s (ppm p) =
    ap (λ b. record s { board = b }) (on_set_ppm-perform device p s.board)
branch_board device s (agc a) =
    ap (λ b. record s { board = b }) (on_set_agc-perform device a s.board)

single_command-encode :
    (device : Controller) (tick : Tick) (c : Command) (s : Thread device.Handle (Unit {0}))
    → Encodable c
    → single_command device tick (encode c) s ≡ on_board s (perform device c)
unfolding single_command
single_command-encode device tick c s fits =
    match_command-encode c (λ f. on_board s (on_set_frequency device f))
      (λ r. on_board s (on_set_sample_rate device r)) (λ m. on_board s (on_set_gain_mode device m))
      (λ g. on_board s (on_set_tuner_gain device g)) (λ p. on_board s (on_set_ppm device p))
      (λ a. on_board s (on_set_agc device a)) _ _ fits
    ∙ branch_board device s c

pub master_command-encode :
    (device : Controller) (cipher : StreamCipher) (key : Option (List ℕ)) (tick : Tick)
    (c : Command) (s : Thread device.Handle (Session cipher.State))
    → Encodable c
    → master_command device cipher key tick (encode c) s ≡ on_board s (perform device c)
unfolding master_command
master_command-encode device cipher key tick c s fits =
    match_command-encode c (λ f. on_board s (on_set_frequency device f))
      (λ r. on_board s (on_set_sample_rate device r)) (λ m. on_board s (on_set_gain_mode device m))
      (λ g. on_board s (on_set_tuner_gain device g)) (λ p. on_board s (on_set_ppm device p))
      (λ a. on_board s (on_set_agc device a)) _ _ fits
    ∙ branch_board device s c

pub read_frame :
    (wire more : List ℕ)
    → length wire ≡ 5
    → read_exact 5 (sending (wire ++ more)) ≡ done wire (sending more)
read_frame wire more e = rw (map-append byte wire more, ← e) (read_exact-append wire (sending more))

Delivers-plain : (x : Unit {0}) (cs : List Command) → Delivers plain x (sending (frames cs)) cs
Delivers-plain x [] = refl
Delivers-plain x (c ∷ cs) = (
  encode c,
  sending (frames cs),
  x,
  read_frame (encode c) (frames cs) (length-encode c),
  refl,
  Delivers-plain x cs,
)

length-zero {ℓ} : {A : Type ℓ} (xs : List A) → length xs ≡ 0 → xs ≡ []
length-zero [] h = refl
length-zero (x ∷ xs) h = absurd (omega arith)

pub Delivers-encrypted :
    (device : Controller) (cipher : StreamCipher) (laws : CipherLaws cipher)
    (x : Session cipher.State) (k : cipher.State) (cs : List Command)
    → x.read_cipher ≡ some k
    → Delivers (decrypt device cipher) x (sending (cipher.apply_keystream k (frames cs)).0) cs
unfolding decrypt
Delivers-encrypted device cipher laws x k [] e =
    ap sending (length-zero (cipher.apply_keystream k []).0 (laws.length-apply k []))
Delivers-encrypted device cipher laws x k (c ∷ cs) e =
    let apply = cipher.apply_keystream in
    let wire : List ℕ = (apply k (encode c)).0 in
    let k' : cipher.State = (apply k (encode c)).1 in
    let x' : Session cipher.State = record x { read_cipher = some k' } in
    (
      wire,
      sending (apply k' (frames cs)).0,
      x',
      rw (laws.apply-append k (encode c) (frames cs))
          (read_frame wire _ (laws.length-apply k (encode c) ∙ length-encode c)),
      rw (e, decrypt, laws.apply-apply k (encode c), laws.apply-apply_state k (encode c)),
      Delivers-encrypted device cipher laws x' k' cs refl,
    )

-- In single-client mode, commands that arrive plain and whole, with the exit flag down, are done in
-- their order, but for those that the rate limiter drops; then the thread ends.
pub single_loop-frames :
    (device : Controller) (ticks : ℕ → Tick) (cs : List Command) (fuel : ℕ)
    (s : Thread device.Handle (Unit {0}))
    → ((i : ℕ) → (ticks i).should_exit ≡ false)
    → All Encodable cs
    → s.stream.incoming ≡ sending (frames cs)
    → length cs < fuel
    → (t : Thread device.Handle (Unit {0})) × (single_loop device fuel ticks s ≡ some t)
      × (t.board ≡ perform_all device (let_through ticks 0 s.rate_limiter cs) s.board)
unfolding single_loop control_loop
single_loop-frames device ticks cs fuel s running fits e h =
    let (t, run, same, out) =
      control_loop-Delivers device plain (single_command device) (single_command-encode device)
        ticks running cs fuel 0 s fits h (rw e (Delivers-plain s.session cs)) in
    (t, run, same)

-- In multi-client mode with encryption established, commands that arrive whole, encrypted from the
-- cipher state of the thread on, with the exit flag down, are done in their order, but for those
-- that the rate limiter drops; then the thread ends.
pub master_loop-frames :
    (device : Controller) (cipher : StreamCipher) (key : Option (List ℕ)) (ticks : ℕ → Tick)
    (cs : List Command) (fuel : ℕ) (s : Thread device.Handle (Session cipher.State))
    (k : cipher.State)
    → CipherLaws cipher
    → ((i : ℕ) → (ticks i).should_exit ≡ false)
    → All Encodable cs
    → s.session.read_cipher ≡ some k
    → s.stream.incoming ≡ sending (cipher.apply_keystream k (frames cs)).0
    → length cs < fuel
    → (t : Thread device.Handle (Session cipher.State)) × (master_loop device cipher key fuel ticks
          s
        ≡ some t)
      × (t.board ≡ perform_all device (let_through ticks 0 s.rate_limiter cs) s.board)
unfolding master_loop control_loop
master_loop-frames device cipher key ticks cs fuel s k laws running fits c e h =
    let (t, run, same, out) =
      control_loop-Delivers device (decrypt device cipher) (master_command device cipher key)
        (master_command-encode device cipher key) ticks running cs fuel 0 s fits h
        (rw e (Delivers-encrypted device cipher laws s.session k cs c)) in
    (t, run, same)
