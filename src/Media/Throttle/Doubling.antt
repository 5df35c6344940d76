-- ===== src/Media/Throttle/Doubling.antt =====
-- The delays of the throttle double up to their bound.
use rack_ai.Common.{ℕ, zero, suc, ◌+◌, ◌*◌, ◌≤◌, ◌≡◌, min, refl, sym, ◌∙◌, ap, arith}
use rack_ai.Media.Throttle.{delay_seconds, max_backoff_seconds}

-- The wait in seconds after `n` earlier failures.
abbrev pub backoff : ℕ → ℕ
backoff zero = 1
backoff (suc n) = min (2 * backoff n) max_backoff_seconds

pub backoff_bounded : (n : ℕ) → backoff n ≤ 30
backoff_bounded zero = omega arith
backoff_bounded (suc n) = omega arith

backoff_late : (n : ℕ) → backoff (suc (suc (suc (suc (suc n))))) ≡ 30
backoff_late zero = refl
backoff_late (suc n) = ap (λ b. min (2 * b) max_backoff_seconds) (backoff_late n)

-- The counter stops at six, where the delay has reached its bound.
pub delay-backoff : (n : ℕ) → delay_seconds (min (n + 1) 6) ≡ backoff n
delay-backoff zero = refl
delay-backoff (suc zero) = refl
delay-backoff (suc (suc zero)) = refl
delay-backoff (suc (suc (suc zero))) = refl
delay-backoff (suc (suc (suc (suc zero)))) = refl
delay-backoff (suc (suc (suc (suc (suc n))))) =
    let stops : min (suc (suc (suc (suc (suc n)))) + 1) 6 ≡ 6 = omega arith in
    ap delay_seconds stops ∙ sym (backoff_late n)
