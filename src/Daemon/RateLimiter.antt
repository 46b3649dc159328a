-- ===== src/Daemon/RateLimiter.antt =====
-- RateLimiter of daemon/internal/daemon/security.go: a token bucket for each client. Tokens are
-- counted in units of 10^-9, so that a refill over a whole number of nanoseconds at a whole rate is
-- exact (the source has float64). Time is the monotonic clock in nanoseconds.
pub mod Step
pub mod Bound
mod Tests
use next_deploy.Common.{
  ℕ, ◌+◌, ◌-◌, ◌*◌, Bool, true, false, Option, none, some, [], leb, ltb, if◌then◌else◌,
}
use next_deploy.Common.Text.{Text}
use next_deploy.Common.Map.{Map, get, put}

-- One token.
abbrev pub token : ℕ
token = 1_000_000_000

pub record RateLimiter : Type 0 where
  pub tokens : Map ℕ
  pub last : Map ℕ
  pub rate : ℕ  -- tokens per second, which are units per nanosecond
  pub burst : ℕ  -- in units

unfoldable pub new_rate_limiter : ℕ → ℕ → RateLimiter
new_rate_limiter rate burst = record { tokens = []; last = []; rate = rate; burst = burst * token }

-- Reading a missing key of a Go map gives the zero value.
abbrev pub or_zero : Option ℕ → ℕ
or_zero none = 0
or_zero (some n) = n

abbrev missing : Option ℕ → Bool
missing none = true
missing (some n) = false

-- `if _, ok := rl.tokens[id]; !ok { … }`
init_bucket : ℕ → Text → RateLimiter → RateLimiter
init_bucket now id rl =
    if missing (get id rl.tokens)
    then record rl { tokens = put id rl.burst rl.tokens; last = put id now rl.last }
    else rl

-- The level after the time since the last request, capped at the burst.
refilled : ℕ → Text → RateLimiter → ℕ
refilled now id rl =
    let level = or_zero (get id rl.tokens) + (now - or_zero (get id rl.last)) * rl.rate in
    if ltb rl.burst level then rl.burst else level

refill : ℕ → Text → RateLimiter → RateLimiter
unfolding refilled
refill now id rl = record rl {
  tokens = put id (refilled now id rl) rl.tokens;
  last = put id now rl.last;
}

take_token : Text → RateLimiter → Bool × RateLimiter
take_token id rl =
    let level = or_zero (get id rl.tokens) in
    if leb token level
    then (true, record rl { tokens = put id (level - token) rl.tokens })
    else (false, rl)

-- Allow, at the time `now`.
unfoldable pub allow : ℕ → Text → RateLimiter → Bool × RateLimiter
unfolding init_bucket refill take_token
allow now id rl = take_token id (refill now id (init_bucket now id rl))
