-- ===== src/Daemon/RateLimiter/Bound.antt =====
-- What Allow of daemon/internal/daemon/security.go promises: clients do not disturb one another, and
-- no client gets more than its burst and what the rate refills.
use next_deploy.Common.{
  ℕ, ◌+◌, ◌-◌, ◌*◌, ◌≤◌, ◌≡◌, true, false, List, [], ◌∷◌, arith, if◌then◌else◌, ◌&&◌, Bool-cases,
  inl, inr,
}
use next_deploy.Common.Text.{Text, text_eq, text_eq_iff, text_eq_refl}
use next_deploy.Common.Map.{get}
use next_deploy.Daemon.RateLimiter.{RateLimiter, token, new_rate_limiter, allow}
use next_deploy.Daemon.RateLimiter.Step.{
  level, stamp, InStep, spent, allow_lem, allow_limits, allow_other, allow-InStep,
}

-- Requests in the order of the clock, from `t` to `t'`: the time and the client of each.
abbrev pub Timeline : ℕ → List (ℕ × Text) → ℕ → Type 0
Timeline t [] t' = t ≤ t'
Timeline t ((now, id) ∷ events) t' = (t ≤ now) × Timeline now events t'

-- The requests of `id` that are let through, out of a series of requests by any clients.
unfoldable pub admitted : Text → List (ℕ × Text) → RateLimiter → ℕ
admitted id [] rl = 0
admitted id ((now, client) ∷ events) rl =
    let rest = admitted id events (allow now client rl).1 in
    if text_eq client id && (allow now client rl).0 then rest + 1 else rest

sub_split : (r a b c : ℕ) → a ≤ b → b ≤ c → r * (c - b) + r * (b - a) ≡ r * (c - a)
sub_split r a b c p q = let e : c - b + (b - a) ≡ c - a = omega arith in rw (← e) (omega arith)

mul_mono : (r a b : ℕ) → a ≤ b → r * a ≤ r * b
mul_mono r a b h = grind arith

-- What one request leaves of the client's allowance up to `t'`.
module _ (id client : Text) (rl : RateLimiter) (t now t' : ℕ) where
  allowance_own :
      InStep id rl
      → stamp t id rl ≤ now
      → t ≤ now
      → now ≤ t'
      → level id rl ≤ rl.burst
      → let (ok, rl') = allow now id rl in
        (spent ok + level id rl' + rl.rate * (t' - stamp now id rl')
          ≤ level id rl + rl.rate * (t' - stamp t id rl))
        × (level id rl' ≤ rl'.burst)
        × (stamp now id rl' ≤ now)
  allowance_own step old le le' full = ground (
    arith,
    allow_lem now id rl step,
    allow_limits now id id rl,
    sub_split rl.rate (stamp t id rl) now t',
    mul_mono rl.rate (t' - now) (t' - t),
  )

  allowance_other :
      text_eq client id ≡ false
      → t ≤ now
      → now ≤ t'
      → level id rl ≤ rl.burst
      → stamp t id rl ≤ t
      → let rl' = (allow now client rl).1 in
        (level id rl' + rl.rate * (t' - stamp now id rl')
          ≤ level id rl + rl.rate * (t' - stamp t id rl))
        × (level id rl' ≤ rl'.burst)
        × (stamp now id rl' ≤ now)
  allowance_other ne le le' full old = ground (
    arith,
    allow_other now client id rl ne,
    allow_limits now client id rl,
    mul_mono rl.rate (t' - now) (t' - t),
  )

Timeline-le : (t t' : ℕ) (events : List (ℕ × Text)) → Timeline t events t' → t ≤ t'
Timeline-le t t' [] h = h
Timeline-le t t' ((now, id) ∷ events) h = omega (arith, Timeline-le now t' events h.1)

-- The client's bucket is in order at the time `t`.
abbrev pub InOrder : ℕ → Text → RateLimiter → Type 0
InOrder t id rl = InStep id rl × (stamp t id rl ≤ t) × (level id rl ≤ rl.burst)

module _ (id client : Text) (rl : RateLimiter) (t now t' : ℕ) where
  allow-InOrder : t ≤ now → now ≤ t' → InOrder t id rl → InOrder now id (allow now client rl).1
  allow-InOrder le le' (step, old, full) = elim (Bool-cases (text_eq client id)) [
    | inl same ↦
        let e = (text_eq_iff client id).0 same in
        let a = allowance_own id client rl t now t' step (omega arith) le le' full in
        rw e (allow-InStep now id id rl step step, a.2, a.1)
    | inr other ↦
        let a = allowance_other id client rl t now t' other le le' full old in
        (ground (arith, allow_other now client id rl other), a.2, a.1)
  ]

  allowance :
      t ≤ now
      → now ≤ t'
      → InOrder t id rl
      → let (ok, rl') = allow now client rl in
        (if text_eq client id && ok then token else 0)
          + level id rl'
          + rl.rate * (t' - stamp now id rl')
        ≤ level id rl + rl.rate * (t' - stamp t id rl)
  allowance le le' (step, old, full) = elim (Bool-cases (text_eq client id)) [
    | inl same ↦
        let e = (text_eq_iff client id).0 same in
        let a = allowance_own id client rl t now t' step (omega arith) le le' full in
        rw (e, text_eq_refl) (ground (arith, a.0))
    | inr other ↦
        let a = allowance_other id client rl t now t' other le le' full old in
        rw other (ground (arith, a.0))
  ]

admitted_allowance :
    (id : Text) (t' : ℕ) (events : List (ℕ × Text)) (rl : RateLimiter) (t : ℕ)
    → InOrder t id rl
    → Timeline t events t'
    → token * admitted id events rl ≤ level id rl + rl.rate * (t' - stamp t id rl)
unfolding admitted
admitted_allowance id t' [] rl t o line = omega arith
admitted_allowance id t' ((now, client) ∷ events) rl t o (le, line) =
    let le' = Timeline-le now t' events line in
    let ih =
      admitted_allowance id t' events (allow now client rl).1 now
        (allow-InOrder id client rl t now t' le le' o) line in
    ground (arith, ih, allowance id client rl t now t' le le' o, allow_limits now client id rl)

-- Out of any series of requests by any clients, between the times `t` and `t'`, a new limiter lets
-- through at most the burst and what the rate gives in that time, for each client.
pub admitted-le :
    (id : Text) (rate burst t t' : ℕ) (events : List (ℕ × Text))
    → Timeline t events t'
    → token * admitted id events (new_rate_limiter rate burst) ≤ token * burst + rate * (t' - t)
unfolding new_rate_limiter get
admitted-le id rate burst t t' events line =
    let o : InOrder t id (new_rate_limiter rate burst) = ground arith in
    ground (arith, admitted_allowance id t' events (new_rate_limiter rate burst) t o line)

-- A client whose bucket is in order, and who has waited long enough for one token, is let through,
-- if the burst holds a token at all.
pub allow_after_wait :
    (id : Text) (rl : RateLimiter) (t now : ℕ)
    → InOrder t id rl
    → t ≤ now
    → token ≤ rl.burst
    → token ≤ rl.rate * (now - stamp now id rl)
    → (allow now id rl).0 ≡ true
allow_after_wait id rl t now (step, old, full) le room wait =
    ground (arith, allow_lem now id rl step)
