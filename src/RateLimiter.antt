-- ===== src/RateLimiter.antt =====
-- internal/server/ratelimit.go: the fixed-window rate limiter. Times are numbers; `now` is what
-- `time.Now()` returns in the call. The mutex makes each call one step.
pub mod Window
mod Tests
use im_system.Common.{
  ℕ, ◌+◌, Bool, true, false, not, Option, none, some, [], ltb, leb, ◌==◌, if◌then◌else◌, Text,
  Assoc, lookup, insert, retain,
}

pub record RateEntry : Type 0 where
  pub count : ℕ
  pub reset : ℕ

pub record RateLimiter : Type 0 where
  pub counters : Assoc RateEntry
  pub limit : ℕ
  pub window : ℕ

unfoldable pub new_rate_limiter : ℕ → ℕ → RateLimiter
new_rate_limiter limit window = record { counters = []; limit = limit; window = window }

-- `now.After(e.reset)`
abbrev pub is_over : ℕ → RateEntry → Bool
is_over now e = ltb e.reset now

-- The window of `key` starts anew; the windows that are over are dropped on the way.
unfoldable pub start_window : RateLimiter → ℕ → Text → RateLimiter
start_window rl now key = record rl {
  counters =
      insert key (record { count = 1; reset = now + rl.window })
        (retain (λ _ e. not (is_over now e)) rl.counters);
}

-- `entry.count++`
unfoldable pub count_call : RateLimiter → Text → RateEntry → RateLimiter
count_call rl key e = record rl {
  counters = insert key (record e { count = e.count + 1 }) rl.counters;
}

unfoldable pub allow : RateLimiter → ℕ → Text → RateLimiter × Bool
unfolding start_window count_call
allow rl now key = if rl.limit == 0 then (rl, false) else elim (lookup key rl.counters) [
  | none ↦ (start_window rl now key, true)
  | some e ↦
      if is_over now e
      then (start_window rl now key, true)
      else (count_call rl key e, leb (e.count + 1) rl.limit)
]
