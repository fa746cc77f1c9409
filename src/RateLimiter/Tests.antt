-- ===== src/RateLimiter/Tests.antt =====
-- Runs of the limiter of internal/server/ratelimit.go.
use im_system.Common.{◌≡◌, refl, List, [], ◌∷◌, false, Text, lookup, text_eq, arith, retain, insert}
use im_system.RateLimiter.{RateLimiter, new_rate_limiter, allow}
use im_system.RateLimiter.Window.{Call, granted, asked, window_exact}

abbrev two_per_ten : RateLimiter
unfolding new_rate_limiter
two_per_ten = new_rate_limiter 2 10

abbrev one : Text
one = b'1' ∷ []

abbrev other : Text
other = b'2' ∷ []

abbrev busy : List Call
busy = (1, other) ∷ (2, one) ∷ (3, other) ∷ (10, one) ∷ []

third_fails : (allow (allow (allow two_per_ten 0 one).0 1 one).0 10 one).1 ≡ false
unfolding allow new_rate_limiter lookup insert retain text_eq
third_fails = refl

window_exact_example : granted one two_per_ten ((0, one) ∷ busy) ≡ 2
unfolding new_rate_limiter asked text_eq lookup
window_exact_example = window_exact two_per_ten 0 one busy (λ e h. cc) (omega arith)

-- A call that was let pass at 0 gives no room at 6: no token comes back within the window.
no_refill : (allow (allow (allow two_per_ten 0 one).0 1 one).0 6 one).1 ≡ false
unfolding allow new_rate_limiter lookup insert retain text_eq
no_refill = refl
