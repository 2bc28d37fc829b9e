-- ===== src/Tests/Control.antt =====
-- Runs of the argument checks, the whitelist and the rate limiter.
use rtltcp.Prelude.{ℕ, ◌≡◌, refl, inl, inr, true, [], ◌∷◌, none, some, arith, ◌==◌, if◌then◌else◌}
use rtltcp.Prelude.Int.{pos, negsuc}
use rtltcp.Io.{ok, is_ok}
use rtltcp.Control.{validate_ppm}
use rtltcp.Control.Ranges.{validate_ranges}
use rtltcp.Control.Whitelist.{Addresses, check_whitelist, check_whitelist_iff}
use rtltcp.Control.RateLimiter.{RateLimiter, check}
use rtltcp.Control.RateLimiter.Spacing.{accepted, Spaced, accepted-Spaced}
use text.Mathlib.Text.{◌==◌ as str_eq}

validate_ranges_example : is_ok (validate_ppm (negsuc 199)) ≡ true
validate_ranges_example = (validate_ranges 0 0 (negsuc 199) (pos 0)).2.1 (omega arith)

-- One network, "10/8", and addresses that are written as "10" or "11".
abbrev toy_net : Addresses
toy_net = record {
  IpAddr = ℕ;
  IpNet = ℕ;
  parse_ip = λ t. if str_eq t "10" then some 10 else if str_eq t "11" then some 11 else none;
  parse_net = λ t. if str_eq t "10/8" then some 10 else none;
  to_canonical = λ ip. ip;
  contains = λ n ip. n == ip;
}

check_whitelist_iff_example : check_whitelist toy_net "10" ("junk" ∷ "10/8" ∷ []) ≡ ok tt
check_whitelist_iff_example =
    (check_whitelist_iff toy_net "10" ("junk" ∷ "10/8" ∷ []) 10 refl).1
      (inr (inr (inl (10, refl, refl))))

abbrev limiter : RateLimiter
limiter = record { last_command = 0; min_interval = 50 }

accepted_run : accepted limiter (60 ∷ 70 ∷ 111 ∷ []) ≡ 60 ∷ 111 ∷ []
unfolding accepted check
accepted_run = refl

accepted-Spaced_example : Spaced 50 0 (accepted limiter (60 ∷ 70 ∷ 111 ∷ []))
accepted-Spaced_example = accepted-Spaced limiter (60 ∷ 70 ∷ 111 ∷ []) (omega arith)
