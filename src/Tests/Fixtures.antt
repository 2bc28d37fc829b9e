-- ===== src/Tests/Fixtures.antt =====
-- What the tests put in place of the device and of the cipher.
use rtltcp.Prelude.{
  ℕ, suc, ◌+◌, ◌-◌, ◌*◌, ◌%◌, ◌≡◌, refl, ap, Bool, true, false, List, [], ◌∷◌, ◌++◌, length,
  length-append, arith, ◌==◌, if◌then◌else◌,
}
use rtltcp.Prelude.Int.{ℤ}
use mathlib.Core.Path.{ap₂}
use rtltcp.Io.{done}
use rtltcp.Encryption.{StreamCipher, CipherLaws}
use rtltcp.Control.Ranges.{IsFrequency, IsSampleRate, IsPpm, IsTunerGain}
use rtltcp.Server.{Controller}

-- A device that writes down the calls, the last first.
pub data Call : Type 0 where
  tuned sampled : ℕ → Call
  gained corrected : ℤ → Call
  automatic : Bool → Call

abbrev pub logger : Controller
logger = record {
  Handle = List Call;
  DeviceError = Unit {0};
  set_center_freq = λ f d. done tt (tuned f ∷ d);
  set_sample_rate = λ r d. done tt (sampled r ∷ d);
  set_tuner_gain = λ g d. done tt (gained g ∷ d);
  set_ppm = λ p d. done tt (corrected p ∷ d);
  enable_agc = λ d. done tt (automatic true ∷ d);
  disable_agc = λ d. done tt (automatic false ∷ d);
}

abbrev pub InRange : Call → Type 0
InRange (tuned f) = IsFrequency f
InRange (sampled r) = IsSampleRate r
InRange (gained g) = IsTunerGain g
InRange (corrected p) = IsPpm p
InRange (automatic on) = Unit {0}

-- A cipher whose keystream is 0, 1, 0, 1, …; its state counts the bytes.
flip : ℕ → ℕ
flip b = b + 1 - 2 * (b % 2)

toggle : ℕ → ℕ → ℕ
unfolding flip
toggle s b = if s % 2 == 0 then b else flip b

toggle-toggle : (s b : ℕ) → toggle s (toggle s b) ≡ b
unfolding toggle
toggle-toggle s b = ground arith

unfoldable pub stripes : ℕ → List ℕ → List ℕ
unfolding toggle
stripes s [] = []
stripes s (b ∷ bs) = toggle s b ∷ stripes (suc s) bs

length-stripes : (s : ℕ) (bs : List ℕ) → length (stripes s bs) ≡ length bs
unfolding stripes
length-stripes s [] = refl
length-stripes s (b ∷ bs) = ap suc (length-stripes (suc s) bs)

stripes-append :
    (s : ℕ) (xs ys : List ℕ) → stripes s (xs ++ ys) ≡ stripes s xs ++ stripes (s + length xs) ys
unfolding stripes
stripes-append s [] ys = let e : s + 0 ≡ s = omega arith in rw e
stripes-append s (x ∷ xs) ys =
    let e : s + suc (length xs) ≡ suc s + length xs = omega arith in
    rw (e, stripes-append (suc s) xs ys)

stripes-stripes : (s : ℕ) (bs : List ℕ) → stripes s (stripes s bs) ≡ bs
unfolding stripes
stripes-stripes s [] = refl
stripes-stripes s (b ∷ bs) =
    ap₂ (λ x xs. x ∷ xs) (unfold toggle in toggle-toggle s b) (stripes-stripes (suc s) bs)

abbrev pub striped : StreamCipher
striped = record {
  State = ℕ;
  new = λ key nonce. 0;
  apply_keystream = λ s bs. (stripes s bs, s + length bs);
}

striped_nil : (s : ℕ) → striped.apply_keystream s [] ≡ ([], s)
unfolding stripes
striped_nil s = ground arith

pub striped-CipherLaws : CipherLaws striped
striped-CipherLaws = record {
  length-apply = length-stripes;
  apply_nil = λ s. striped_nil s;
  apply-append = stripes-append;
  apply-append_state = λ s xs ys. omega (arith, length-append xs ys);
  apply-apply = stripes-stripes;
  apply-apply_state = λ s bs. ap (λ n. s + n) (length-stripes s bs);
}
