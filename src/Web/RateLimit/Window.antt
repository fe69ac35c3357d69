-- ===== src/Web/RateLimit/Window.antt =====
-- How many attempts a window of time holds.
use agilang_native.Base.{
  ℕ, ◌+◌, ◌≤◌, ◌≡◌, refl, String, List, [], ◌∷◌, ◌++◌, arith, length, length-append, ltb,
  if◌then◌else◌, string_key, ap, subst, Bool-cases, inl, inr,
}
use agilang_native.Base.Key.{◌==◌}
use agilang_native.Base.Map.{lookup, lookup-insert, insert}
use agilang_native.Web.RateLimit.{
  RateLimiter, retain_recent, timestamps_of, check_and_increment, refusal, new_limiter,
}

-- how many of the times lie in the window before `now`
unfoldable pub recent : ℕ → ℕ → List ℕ → ℕ
recent window now [] = 0
recent window now (t ∷ ts) =
    let rest = recent window now ts in if ltb now (t + window) then rest + 1 else rest

-- checks of keys at times
pub record Check : Type 0 where
  pub key : String
  pub time : ℕ

-- the times at which a key was allowed, the earliest first, and the limiter after the checks
unfoldable pub allowed_times : ℕ → String → List Check → RateLimiter → List ℕ
unfolding check_and_increment
allowed_times second key [] l = []
allowed_times second key (c ∷ cs) l =
    let (status, l') = check_and_increment second c.key c.time l in
    let rest = allowed_times second key cs l' in
    if status.allowed then (if c.key == key then c.time ∷ rest else rest) else rest

-- times that do not go back, from a first one on
unfoldable pub InOrder : ℕ → List Check → ℕ → Type 0
InOrder start [] now = start ≤ now
InOrder start (c ∷ cs) now = (start ≤ c.time) × InOrder c.time cs now

recent-append :
    (window now : ℕ) (xs ys : List ℕ)
    → recent window now (xs ++ ys) ≡ recent window now xs + recent window now ys
unfolding recent
recent-append window now [] ys = omega arith
recent-append window now (x ∷ xs) ys = ground (arith, recent-append window now xs ys)

recent-le : (window now : ℕ) (ts : List ℕ) → recent window now ts ≤ length ts
unfolding recent
recent-le window now [] = omega arith
recent-le window now (t ∷ ts) = ground (arith, recent-le window now ts)

length-retain_recent :
    (window now : ℕ) (ts : List ℕ) → length (retain_recent window now ts) ≤ length ts
unfolding retain_recent
length-retain_recent window now [] = omega arith
length-retain_recent window now (t ∷ ts) = ground (arith, length-retain_recent window now ts)

-- What is dropped is out of every later window.
recent-retain_recent :
    (window before now : ℕ) (ts : List ℕ)
    → before ≤ now
    → recent window now (retain_recent window before ts) ≡ recent window now ts
unfolding recent retain_recent
recent-retain_recent window before now [] h = refl
recent-retain_recent window before now (t ∷ ts) h =
    ground (arith, recent-retain_recent window before now ts h)

InOrder-le : (start : ℕ) (cs : List Check) (now : ℕ) → InOrder start cs now → start ≤ now
unfolding InOrder
InOrder-le start [] now h = h
InOrder-le start (c ∷ cs) now h = omega (arith, InOrder-le c.time cs now h.1)

timestamps_of-insert :
    (k j : String) (ts : List ℕ) (l : RateLimiter)
    → timestamps_of j (insert k ts l.attempts) ≡ (if k == j then ts else timestamps_of j l.attempts)
timestamps_of-insert k j ts l = ground (arith, lookup-insert k j ts l.attempts)

-- the times of a key after a check, and whether it was allowed
after_check :
    (second : ℕ) (key : String) (c : Check) (l : RateLimiter)
    → let checked = check_and_increment second c.key c.time l in
      let kept = retain_recent l.window_duration c.time (timestamps_of c.key l.attempts) in
      (checked.1.max_attempts ≡ l.max_attempts)
      × (checked.1.window_duration ≡ l.window_duration)
      × (checked.0.allowed ≡ ltb (length kept) l.max_attempts)
      × (timestamps_of key checked.1.attempts ≡ (
          if c.key == key
          then (if ltb (length kept) l.max_attempts then kept ++ c.time ∷ [] else kept)
          else timestamps_of key l.attempts))
unfolding check_and_increment refusal
after_check second key c l =
    let kept = retain_recent l.window_duration c.time (timestamps_of c.key l.attempts) in
    let pushed = timestamps_of-insert c.key key (kept ++ c.time ∷ []) l in
    let same = timestamps_of-insert c.key key kept l in
    (ground arith, ground arith, ground arith, ground (arith, pushed, same))

allowed_times-cons :
    (second : ℕ) (key : String) (c : Check) (cs : List Check) (l : RateLimiter)
    → let checked = check_and_increment second c.key c.time l in
      let rest = allowed_times second key cs checked.1 in
      allowed_times second key (c ∷ cs) l
      ≡ (if checked.0.allowed then (if c.key == key then c.time ∷ rest else rest) else rest)
unfolding allowed_times
allowed_times-cons second key c cs l = refl

-- one check of the key, counted in a window at its time or later
count_step :
    (w now t limit : ℕ) (stored rest : List ℕ)
    → t ≤ now
    → length stored ≤ limit
    → let kept = retain_recent w t stored in
      let stored' = if ltb (length kept) limit then kept ++ t ∷ [] else kept in
      let times = if ltb (length kept) limit then t ∷ rest else rest in
      (length stored' ≤ limit → recent w now stored' + recent w now rest ≤ limit)
      → recent w now stored + recent w now times ≤ limit
count_step w now t limit stored rest late few next =
    let kept = retain_recent w t stored in
    let same = recent-retain_recent w t now stored late in
    let fewer = length-retain_recent w t stored in
    elim (Bool-cases (ltb (length kept) limit)) [
      | inl free ↦
          let first = recent-append w now (t ∷ []) rest in
          let last = recent-append w now kept (t ∷ []) in
          let size = length-append kept (t ∷ []) in
          ground (arith, free, first, last, size, same, fewer)
      | inr full ↦ ground (arith, full, same, fewer)
    ]

InOrder-later :
    (start : ℕ) (c : Check) (cs : List Check) (now : ℕ)
    → InOrder start (c ∷ cs) now
    → InOrder c.time cs now
unfolding InOrder
InOrder-later start c cs now h = h.1

nothing_allowed :
    (w now second : ℕ) (key : String) (l : RateLimiter)
    → recent w now (allowed_times second key [] l) ≡ 0
unfolding allowed_times recent
nothing_allowed w now second key l = refl

module _ (second : ℕ) (key : String) (now : ℕ) where
  -- The times that are kept stand for all that were allowed before.
  window_bound :
      (start : ℕ) (cs : List Check) (l : RateLimiter)
      → InOrder start cs now
      → length (timestamps_of key l.attempts) ≤ l.max_attempts
      → recent l.window_duration now (timestamps_of key l.attempts)
          + recent l.window_duration now (allowed_times second key cs l)
        ≤ l.max_attempts
  window_bound start [] l ordered few = omega (
    arith,
    recent-le l.window_duration now (timestamps_of key l.attempts),
    nothing_allowed l.window_duration now second key l,
  )
  window_bound start (c ∷ cs) l ordered few =
      let (bound, window, allowed, times) = after_check second key c l in
      let l' = (check_and_increment second c.key c.time l).1 in
      let later = InOrder-later start c cs now ordered in
      let rest = allowed_times second key cs l' in
      let found = allowed_times-cons second key c cs l in
      let next : length (timestamps_of key l'.attempts) ≤ l.max_attempts
          → recent l.window_duration now (timestamps_of key l'.attempts)
              + recent l.window_duration now rest
            ≤ l.max_attempts =
        subst
          (λ m.
            length (timestamps_of key l'.attempts) ≤ m
            → recent l.window_duration now (timestamps_of key l'.attempts)
                + recent l.window_duration now rest
              ≤ m)
          bound
          (subst
            (λ w.
              length (timestamps_of key l'.attempts) ≤ l'.max_attempts
              → recent w now (timestamps_of key l'.attempts) + recent w now rest ≤ l'.max_attempts)
            window (window_bound c.time cs l' later)) in
      elim (Bool-cases (c.key == key)) [
        | inl same ↦
            let found_key : c.key ≡ key = (string_key.beq_iff c.key key).0 same in
            let stored = ap (λ k. timestamps_of k l.attempts) found_key in
            let step =
              count_step l.window_duration now c.time l.max_attempts (timestamps_of key l.attempts)
                rest (InOrder-le c.time cs now later) few in
            ground (arith, next, times, found, allowed, same, stored, step)
        | inr other ↦ ground (arith, next, times, found, other)
      ]

-- Whatever keys are checked at times that do not go back, a key is never allowed more often than
-- the limit in a window that ends at the last check or later.
pub allowed_times_bounded :
    (second limit window now : ℕ) (key : String) (cs : List Check)
    → InOrder 0 cs now
    → recent window now (allowed_times second key cs (new_limiter limit window)) ≤ limit
unfolding new_limiter lookup
allowed_times_bounded second limit window now key cs ordered =
    omega (arith, window_bound second key now 0 cs (new_limiter limit window) ordered (omega arith))
