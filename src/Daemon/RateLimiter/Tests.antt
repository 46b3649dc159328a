-- ===== src/Daemon/RateLimiter/Tests.antt =====
-- Runs of the rate limiter of daemon/internal/daemon/security.go.
use next_deploy.Common.{ℕ, ◌+◌, ◌*◌, ◌-◌, ◌≤◌, ◌≡◌, refl, true, List, [], ◌∷◌, arith}
use next_deploy.Common.Text.{Text, codes, text_eq}
use next_deploy.Common.Map.{get, put}
use next_deploy.Daemon.RateLimiter.{RateLimiter, token, new_rate_limiter, allow}
use next_deploy.Daemon.RateLimiter.Bound.{admitted, admitted-le, allow_after_wait}

abbrev a : Text
a = codes "10.0.0.1:4000"

abbrev b : Text
b = codes "10.0.0.2:4000"

-- Three requests of `a` at once, one of `b`, and one of `a` half a second later.
abbrev requests : List (ℕ × Text)
requests = (1_000, a) ∷ (1_000, a) ∷ (1_000, a) ∷ (1_500, b) ∷ (500_001_000, a) ∷ []

burst_of_two : admitted a requests (new_rate_limiter 2 2) ≡ 3
unfolding admitted allow new_rate_limiter get put text_eq
burst_of_two = refl

admitted-le_example :
    token * admitted a requests (new_rate_limiter 2 2) ≤ token * 2 + 2 * (500_001_000 - 0)
admitted-le_example = admitted-le a 2 2 0 500_001_000 requests (omega arith)

abbrev drained : RateLimiter
drained = record { tokens = (a, 0) ∷ []; last = (a, 1_000) ∷ []; rate = 10; burst = 2 * token }

allow_after_wait_example : (allow 100_001_000 a drained).0 ≡ true
unfolding get text_eq
allow_after_wait_example =
    allow_after_wait a drained 1_000 100_001_000 (ground arith) (omega arith) (omega arith)
      (omega arith)
