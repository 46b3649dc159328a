-- ===== src/Daemon/RateLimiter/Step.antt =====
-- What one call of Allow (daemon/internal/daemon/security.go) does to the buckets.
use next_deploy.Common.{
  ℕ, ◌+◌, ◌-◌, ◌*◌, ◌≡◌, ◌↔◌, Bool, true, false, none, some, arith, leb, ltb, if◌then◌else◌,
  Bool-cases, inl, inr,
}
use next_deploy.Common.Text.{Text, text_eq, text_eq_iff, text_eq_refl}
use next_deploy.Common.Map.{get, get-put}
use next_deploy.Daemon.RateLimiter.{
  RateLimiter, token, or_zero, init_bucket, refilled, refill, allow,
}

-- The tokens of a client; one that was never seen has a full bucket.
abbrev pub level : Text → RateLimiter → ℕ
level id rl = elim (get id rl.tokens) [ none ↦ rl.burst | some n ↦ n ]

-- The time of a client's last request, or `t` if there was none.
abbrev pub stamp : ℕ → Text → RateLimiter → ℕ
stamp t id rl = elim (get id rl.last) [ none ↦ t | some n ↦ n ]

-- The two maps have the same keys: what a client's entry may be.
abbrev pub InStep : Text → RateLimiter → Type 0
InStep id rl = (get id rl.tokens ≡ none) ↔ (get id rl.last ≡ none)

abbrev pub spent : Bool → ℕ
spent true = token
spent false = 0

-- The level from which the request at `now` is paid.
abbrev pub available : ℕ → Text → RateLimiter → ℕ
available now id rl =
    let filled = level id rl + (now - stamp now id rl) * rl.rate in
    if ltb rl.burst filled then rl.burst else filled

module _ (now : ℕ) (id j : Text) (rl : RateLimiter) where
  get-tokens-init_bucket :
      get j (init_bucket now id rl).tokens
      ≡ (if text_eq id j then some (level id rl) else get j rl.tokens)
  unfolding init_bucket
  get-tokens-init_bucket = ground (arith, get-put id j rl.burst rl.tokens, text_eq_iff id j)

  get-last-init_bucket :
      InStep id rl
      → get j (init_bucket now id rl).last
        ≡ (if text_eq id j then some (stamp now id rl) else get j rl.last)
  unfolding init_bucket
  get-last-init_bucket h = ground (arith, get-put id j now rl.last, text_eq_iff id j, h.0, h.1)

  init_last_other : text_eq id j ≡ false → get j (init_bucket now id rl).last ≡ get j rl.last
  unfolding init_bucket
  init_last_other ne = ground (arith, get-put id j now rl.last)

  get-tokens-refill :
      get j (refill now id rl).tokens
      ≡ (if text_eq id j then some (refilled now id rl) else get j rl.tokens)
  unfolding refill
  get-tokens-refill = get-put id j (refilled now id rl) rl.tokens

  get-last-refill :
      get j (refill now id rl).last ≡ (if text_eq id j then some now else get j rl.last)
  unfolding refill
  get-last-refill = get-put id j now rl.last

  init_bucket_limits :
      ((init_bucket now id rl).rate ≡ rl.rate) × ((init_bucket now id rl).burst ≡ rl.burst)
  unfolding init_bucket
  init_bucket_limits = ground arith

module _ (now : ℕ) (id : Text) (rl : RateLimiter) (step : InStep id rl) where
  refilled_lem : refilled now id (init_bucket now id rl) ≡ available now id rl
  unfolding refilled
  refilled_lem = ground (
    arith,
    get-tokens-init_bucket now id id rl,
    get-last-init_bucket now id id rl step,
    text_eq_refl id,
    init_bucket_limits now id id rl,
  )

  -- One request of the client: its answer, and its bucket afterwards.
  pub allow_lem :
      ((allow now id rl).0 ≡ leb token (available now id rl))
      × (get id (allow now id rl).1.tokens
          ≡ some (available now id rl - spent (leb token (available now id rl))))
      × (get id (allow now id rl).1.last ≡ some now)
  unfolding allow
  allow_lem =
      let r = init_bucket now id rl in
      let l = available now id rl in
      ground (
        arith,
        refilled_lem,
        get-tokens-refill now id id r,
        get-last-refill now id id r,
        get-put id id (l - token) (refill now id r).tokens,
        text_eq_refl id,
      )

module _ (now : ℕ) (id j : Text) (rl : RateLimiter) where
  pub allow_limits : ((allow now id rl).1.rate ≡ rl.rate) × ((allow now id rl).1.burst ≡ rl.burst)
  unfolding allow
  allow_limits = ground arith

  -- A request changes the bucket of its own client only.
  pub allow_other :
      text_eq id j ≡ false
      → (get j (allow now id rl).1.tokens ≡ get j rl.tokens)
        × (get j (allow now id rl).1.last ≡ get j rl.last)
  unfolding allow
  allow_other ne =
      let r = init_bucket now id rl in
      let l = or_zero (get id (refill now id r).tokens) in
      ground (
        arith,
        get-tokens-init_bucket now id j rl,
        get-last-refill now id j r,
        get-tokens-refill now id j r,
        init_last_other now id j rl,
        get-put id j (l - token) (refill now id r).tokens,
      )

  -- The two maps keep the same keys.
  pub allow-InStep : InStep id rl → InStep j rl → InStep j (allow now id rl).1
  allow-InStep own h = elim (Bool-cases (text_eq id j)) [
    | inl same ↦
        let e = (text_eq_iff id j).0 same in rw (← e) (ground (arith, allow_lem now id rl own))
    | inr other ↦ ground (arith, allow_other other)
  ]
