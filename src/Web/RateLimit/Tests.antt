-- ===== src/Web/RateLimit/Tests.antt =====
-- A run of the limiter, and the theorem at it.
use agilang_native.Base.{◌≤◌, ◌≡◌, refl, arith, List, [], ◌∷◌}
use agilang_native.Web.RateLimit.{new_limiter}
use agilang_native.Web.RateLimit.Window.{
  Check, InOrder, recent, allowed_times, allowed_times_bounded,
}

abbrev visits : List Check
visits =
    record { key = "a"; time = 100 }
    ∷ record { key = "a"; time = 101 }
    ∷ record { key = "b"; time = 102 }
    ∷ record { key = "a"; time = 103 }
    ∷ record { key = "a"; time = 170 }
    ∷ []

visits_allowed : allowed_times 1 "a" visits (new_limiter 2 60) ≡ 100 ∷ 101 ∷ 170 ∷ []
unfolding allowed_times new_limiter
visits_allowed = refl

allowed_times_bounded_example : recent 60 170 (allowed_times 1 "a" visits (new_limiter 2 60)) ≤ 2
unfolding InOrder
allowed_times_bounded_example = allowed_times_bounded 1 2 60 170 "a" visits (omega arith)
