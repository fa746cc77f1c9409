-- ===== src/RateLimiter/Window.antt =====
-- internal/server/ratelimit.go: one window of the limiter against the calls that are made in it.
use Prim.Native.Nat.{min}
use im_system.Common.{
  ℕ, ◌+◌, ◌-◌, ◌≤◌, ◌≡◌, refl, ◌∙◌, ◌≢◌, true, false, not, some, List, [], ◌∷◌, arith, leb,
  if◌then◌else◌, Text, text_eq, text_eq_iff, lookup, lookup-insert, lookup-retain_keep, All,
  Bool-cases, Option-cases, sym, subst, text_eq_refl, inl, inr,
}
use native.Mathlib.Decide.{ℕ_discrete}
use im_system.RateLimiter.{RateEntry, RateLimiter, is_over, start_window, count_call, allow}

-- A call: its time and its key.
abbrev pub Call : Type 0
Call = ℕ × Text

-- How often a key asks, and how often it passes, in a run of calls.
unfoldable pub asked : Text → List Call → ℕ
asked k [] = 0
asked k ((now, j) ∷ calls) = (if text_eq j k then 1 else 0) + asked k calls

pub granted : Text → RateLimiter → List Call → ℕ
unfolding allow
granted k rl [] = 0
granted k rl ((now, j) ∷ calls) =
    let (rl', pass) = allow rl now j in
    (if text_eq j k then (if pass then 1 else 0) else 0) + granted k rl' calls

pub limit-allow : (rl : RateLimiter) (now : ℕ) (j : Text) → (allow rl now j).0.limit ≡ rl.limit
unfolding allow
limit-allow rl now j = ground arith

-- A call of another key leaves a window that is not over alone.
start_window_other :
    (rl : RateLimiter) (now : ℕ) (j k : Text) (e : RateEntry)
    → text_eq j k ≡ false
    → lookup k rl.counters ≡ some e
    → now ≤ e.reset
    → lookup k (start_window rl now j).counters ≡ some e
unfolding start_window
start_window_other rl now j k e ne h fits =
    rw (lookup-insert, ne)
      (lookup-retain_keep (λ _ d. not (is_over now d)) k rl.counters e h (ground arith))

count_call_other :
    (rl : RateLimiter) (j k : Text) (e d : RateEntry)
    → text_eq j k ≡ false
    → lookup k rl.counters ≡ some e
    → lookup k (count_call rl j d).counters ≡ some e
unfolding count_call
count_call_other rl j k e d ne h = rw (lookup-insert, ne) h

allow_other :
    (rl : RateLimiter) (now : ℕ) (j k : Text) (e : RateEntry)
    → text_eq j k ≡ false
    → lookup k rl.counters ≡ some e
    → now ≤ e.reset
    → lookup k (allow rl now j).0.counters ≡ some e
unfolding allow
allow_other rl now j k e ne h fits = elim (Option-cases (lookup j rl.counters)) [
  | inl absent ↦ rw (absent, allow) (ground (arith, start_window_other rl now j k e))
  | inr (d, present) ↦
      rw (present, allow)
        (ground (arith, start_window_other rl now j k e, count_call_other rl j k e d))
]

lookup-count_call :
    (rl : RateLimiter) (k : Text) (e : RateEntry)
    → lookup k (count_call rl k e).counters ≡ some (record e { count = e.count + 1 })
unfolding count_call
lookup-count_call rl k e = rw (lookup-insert, text_eq_refl)

lookup-start_window :
    (rl : RateLimiter) (now : ℕ) (k : Text)
    → lookup k (start_window rl now k).counters
      ≡ some (record { count = 1; reset = now + rl.window })
unfolding start_window
lookup-start_window rl now k = rw (lookup-insert, text_eq_refl)

-- A call in a live window is counted, and passes while the count is within the limit.
allow_live :
    (rl : RateLimiter) (now : ℕ) (k : Text) (e : RateEntry)
    → rl.limit ≢ 0
    → lookup k rl.counters ≡ some e
    → now ≤ e.reset
    → allow rl now k ≡ (count_call rl k e, leb (e.count + 1) rl.limit)
unfolding allow
allow_live rl now k e some_limit h fits = rw (h, allow) (ground arith)

-- No entry for the key, or one whose window is over: the next call starts a window.
abbrev pub StartsWindow : RateLimiter → ℕ → Text → Type 0
StartsWindow rl now k = (e : RateEntry) → lookup k rl.counters ≡ some e → is_over now e ≡ true

allow_starts :
    (rl : RateLimiter) (now : ℕ) (k : Text)
    → rl.limit ≢ 0
    → StartsWindow rl now k
    → allow rl now k ≡ (start_window rl now k, true)
unfolding allow
allow_starts rl now k some_limit starts = elim (Option-cases (lookup k rl.counters)) [
  | inl absent ↦ rw (absent, allow) (ground arith)
  | inr (e, present) ↦ rw (present, allow, starts e present) (ground arith)
]

-- In a live window a key passes as often as it asks, up to what the count leaves of the limit.
live_window :
    (rl : RateLimiter) (k : Text) (e : RateEntry) (calls : List Call)
    → rl.limit ≢ 0
    → lookup k rl.counters ≡ some e
    → All (λ c. c.0 ≤ e.reset) calls
    → granted k rl calls ≡ min (rl.limit - e.count) (asked k calls)
unfolding granted asked
live_window rl k e [] some_limit h fits = omega arith
live_window rl k e ((now, j) ∷ calls) some_limit h fits = elim (Bool-cases (text_eq j k)) [
  | inl same ↦
      subst
        (λ i.
          granted k rl ((now, i) ∷ calls) ≡ min (rl.limit - e.count) (asked k ((now, i) ∷ calls)))
        (sym ((text_eq_iff j k).0 same))
        (rw (allow_live rl now k e some_limit h fits.0, text_eq_refl)
          (ground (
            arith,
            live_window (count_call rl k e) k (record e { count = e.count + 1 }) calls some_limit
                (lookup-count_call rl k e) fits.1,
          )))
  | inr other ↦ rw other (
      ground (
        arith,
        limit-allow rl now j,
        live_window (allow rl now j).0 k e calls (rw limit-allow some_limit)
            (allow_other rl now j k e other h fits.0) fits.1,
      ))
]

-- A limiter with limit 0 lets nothing pass.
disabled : (rl : RateLimiter) (k : Text) (calls : List Call) → rl.limit ≡ 0 → granted k rl calls ≡ 0
unfolding granted allow
disabled rl k [] h = refl
disabled rl k ((now, j) ∷ calls) h = ground (arith, limit-allow rl now j, disabled rl k calls h)

-- From the call that starts a window until the window is over, a key passes exactly
-- min(limit, number of its calls) times, however calls of other keys are interleaved. The window is
-- fixed: nothing is given back before it is over, as a bucket of tokens would.
pub window_exact :
    (rl : RateLimiter) (start : ℕ) (k : Text) (calls : List Call)
    → StartsWindow rl start k
    → All (λ c. c.0 ≤ start + rl.window) calls
    → granted k rl ((start, k) ∷ calls) ≡ min rl.limit (asked k ((start, k) ∷ calls))
unfolding granted asked
window_exact rl start k calls starts fits = elim (ℕ_discrete rl.limit 0) [
  | yes off ↦ disabled rl k ((start, k) ∷ calls) off ∙ rw off (omega arith)
  | no on ↦
      rw (allow_starts rl start k on starts, text_eq_refl)
        (ground (
          arith,
          live_window (start_window rl start k) k (record { count = 1; reset = start + rl.window })
              calls on (lookup-start_window rl start k) fits,
        ))
]
