-- ===== src/Relay/RateLimit.antt =====
-- apps/relay/src/rate-limit.ts: `SlidingWindowRateLimiter`. Times are milliseconds, and the test
-- `entry > timestamp - windowMs` is written without the subtraction.
pub mod Window
pub mod Bound
use winbridge.Base.{
  ℕ, ◌+◌, ◌-◌, Bool, true, false, ◌||◌, ◌&&◌, not, String, List, [], ◌∷◌, ◌++◌, Option, none, some,
  Result, ok, err, thrown, ltb, leb, length, keep, if◌then◌else◌,
}
use winbridge.Base.Dict.{Dict, lookup, insert, delete}

abbrev pub max_development_rate_limit : ℕ
max_development_rate_limit = 1_000_000

abbrev pub max_rate_limit_window_ms : ℕ
max_rate_limit_window_ms = 2_147_483_647

pub record RateLimitDecision : Type 0 where
  pub key : String
  pub allowed : Bool
  pub limit : ℕ
  pub remaining : ℕ
  pub reset_at : ℕ

pub record Limiter : Type 0 where
  pub limit : ℕ
  pub window_ms : ℕ
  pub attempts : Dict (List ℕ)

-- The constructor.
unfoldable pub new_limiter : ℕ → ℕ → Result Limiter
new_limiter limit window_ms =
    if ltb limit 1 || ltb max_development_rate_limit limit
    then err (thrown "Rate limit must be an integer from 1 through 1000000")
    else if ltb window_ms 1000 || ltb max_rate_limit_window_ms window_ms
    then err (thrown "Rate limit window must be an integer from 1000 through 2147483647")
    else ok (record { limit = limit; window_ms = window_ms; attempts = [] })

abbrev pub in_window : ℕ → ℕ → ℕ → Bool
in_window window_ms timestamp entry = ltb timestamp (entry + window_ms)

-- `this.attempts.get(key) ?? []`
unfoldable pub attempts_of : Limiter → String → List ℕ
attempts_of l key = elim (lookup key l.attempts) [ none ↦ [] | some entries ↦ entries ]

abbrev pub first_or : List ℕ → ℕ → ℕ
first_or [] t = t
first_or (e ∷ es) t = e

-- The entries that `consume` stores, and whether the attempt is let through.
unfoldable pub admit : ℕ → List ℕ → ℕ → List ℕ × Bool
admit limit current timestamp =
    if ltb (length current) limit then (current ++ timestamp ∷ [], true) else (current, false)

unfoldable pub consume : Limiter → String → ℕ → Limiter × RateLimitDecision
unfolding admit attempts_of
consume l key timestamp =
    let current = keep (in_window l.window_ms timestamp) (attempts_of l key) in
    let admitted = admit l.limit current timestamp in
    (
      record l { attempts = insert key admitted.0 l.attempts },
      record {
        key = key;
        allowed = admitted.1;
        limit = l.limit;
        remaining = l.limit - length admitted.0;
        reset_at = first_or admitted.0 timestamp + l.window_ms;
      },
    )

unfoldable pub reset : Limiter → String → Limiter
reset l key = record l { attempts = delete key l.attempts }
