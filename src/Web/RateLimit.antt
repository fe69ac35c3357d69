-- ===== src/Web/RateLimit.antt =====
-- The limiter of crates/agilang-framework-rate-limit/src/lib.rs, each method under its lock. Times
-- and durations are natural numbers of one unit, `second` of which make a second.
pub mod Window
mod Tests
use agilang_native.Base.{
  ℕ, ◌+◌, ◌-◌, ◌/◌, Bool, true, false, Option, none, some, String, List, [], ◌∷◌, ◌++◌, length, ltb,
  leb, if◌then◌else◌, string_key,
}
use agilang_native.Base.Map.{Map, lookup, insert, erase}

pub record RateLimitStatus : Type 0 where
  pub allowed : Bool
  pub remaining : ℕ
  pub retry_after_seconds : ℕ

pub record RateLimiter : Type 0 where
  pub max_attempts : ℕ
  pub window_duration : ℕ
  pub attempts : Map String (List ℕ)

unfoldable pub new_limiter : ℕ → ℕ → RateLimiter
new_limiter max_attempts window_duration = record {
  max_attempts = max_attempts;
  window_duration = window_duration;
  attempts = [];
}

-- `retain(|t| t > now - window)`; the difference may lie before the first time
unfoldable pub retain_recent : ℕ → ℕ → List ℕ → List ℕ
retain_recent window now [] = []
retain_recent window now (t ∷ ts) =
    let rest = retain_recent window now ts in if ltb now (t + window) then t ∷ rest else rest

-- `entry(key).or_default()`
abbrev pub timestamps_of : String → Map String (List ℕ) → List ℕ
timestamps_of key attempts = elim (lookup key attempts) [ none ↦ [] | some ts ↦ ts ]

-- `first().copied().unwrap_or(now)`
abbrev pub oldest_or : ℕ → List ℕ → ℕ
oldest_or now [] = now
oldest_or now (t ∷ ts) = t

-- the status of a refused attempt; a time in the future has elapsed by nothing
unfoldable pub refusal : ℕ → ℕ → ℕ → List ℕ → RateLimitStatus
refusal second window now timestamps =
    let elapsed = now - oldest_or now timestamps in
    record {
      allowed = false;
      remaining = 0;
      retry_after_seconds = if ltb window elapsed then 1 else (window - elapsed) / second;
    }

unfoldable pub check_and_increment : ℕ → String → ℕ → RateLimiter → RateLimitStatus × RateLimiter
unfolding lookup insert retain_recent refusal
check_and_increment second key now l =
    let timestamps = retain_recent l.window_duration now (timestamps_of key l.attempts) in
    let pushed = timestamps ++ now ∷ [] in
    if leb l.max_attempts (length timestamps)
    then (
      refusal second l.window_duration now timestamps,
      record l { attempts = insert key timestamps l.attempts },
    )
    else (
      record {
        allowed = true;
        remaining = l.max_attempts - length pushed;
        retry_after_seconds = 0;
      },
      record l { attempts = insert key pushed l.attempts },
    )

unfoldable pub reset : String → RateLimiter → RateLimiter
unfolding erase
reset key l = record l { attempts = erase key l.attempts }
