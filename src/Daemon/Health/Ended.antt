-- ===== src/Daemon/Health/Ended.antt =====
-- The wait for a healthy release ends, when it does, and with what (waitForHealthy,
-- daemon/internal/daemon/command_handler.go).
use next_deploy.Common.{
  ℕ, zero, suc, ◌+◌, ◌*◌, ◌≤◌, ◌<◌, ◌≡◌, refl, Bool, true, false, some, ltb, arith, inl, inr,
  Bool-cases, ltb→lt, lt→ltb,
}
use next_deploy.Daemon.Health.{
  Surroundings, first_backoff, max_backoff, next_backoff, is_healthy, woken, wait, wait_for_healthy,
}

-- A pause is between the first and the longest.
IsPause : ℕ → Type 0
IsPause b = (first_backoff ≤ b) × (b ≤ max_backoff)

next_backoff-IsPause : (b : ℕ) → IsPause b → IsPause (next_backoff b)
unfolding IsPause next_backoff
next_backoff-IsPause b h = ground arith

module _ (around : Surroundings) where
  -- The instant at which attempt `k` begins.
  pub instant : ℕ → ℕ → ℕ → ℕ
  instant zero now backoff = now
  instant (suc k) now backoff = instant k (woken around now backoff) (next_backoff backoff)

  le-instant : (k now backoff : ℕ) → now ≤ instant k now backoff
  unfolding instant woken
  le-instant zero now backoff = omega arith
  le-instant (suc k) now backoff =
      let ih = le-instant k (woken around now backoff) (next_backoff backoff) in ground (arith, ih)

  -- What a wait that began at `now` may give: healthy, by an attempt that began before the deadline
  -- and when that was answered; or not, at the deadline or after it, and no attempt that could begin
  -- before it is healthy.
  unfoldable pub IsVerdict : ℕ → ℕ → ℕ → Bool × ℕ → Type 0
  IsVerdict deadline now backoff (true, end) =
      (k : ℕ) × (instant k now backoff < deadline)
      × (is_healthy (around.attempt (instant k now backoff)) ≡ true)
      × (end ≡ instant k now backoff + (around.attempt (instant k now backoff)).took)
  IsVerdict deadline now backoff (false, end) =
      (deadline ≤ end)
      × ((k : ℕ)
          → instant k now backoff < deadline
          → is_healthy (around.attempt (instant k now backoff)) ≡ false)

  over_IsVerdict :
      (deadline now backoff : ℕ) → deadline ≤ now → IsVerdict deadline now backoff (false, now)
  unfolding IsVerdict
  over_IsVerdict deadline now backoff over =
      (over, λ k early. let later = le-instant k now backoff in ground arith)

  first_IsVerdict :
      (deadline now backoff : ℕ)
      → now < deadline
      → is_healthy (around.attempt now) ≡ true
      → IsVerdict deadline now backoff (true, now + (around.attempt now).took)
  unfolding IsVerdict instant
  first_IsVerdict deadline now backoff early well = (0, early, well, refl)

  enough_later :
      (fuel deadline now backoff : ℕ)
      → IsPause backoff
      → deadline ≤ now + suc fuel * first_backoff
      → deadline ≤ woken around now backoff + fuel * first_backoff
  unfolding IsPause woken
  enough_later fuel deadline now backoff pause enough = ground arith

  later_IsVerdict :
      (deadline now backoff : ℕ) (outcome : Bool × ℕ)
      → is_healthy (around.attempt now) ≡ false
      → IsVerdict deadline (woken around now backoff) (next_backoff backoff) outcome
      → IsVerdict deadline now backoff outcome
  unfolding IsVerdict instant
  later_IsVerdict deadline now backoff (true, end) sick (k, early, well, ended) =
      (suc k, early, well, ended)
  later_IsVerdict deadline now backoff (false, end) sick (over, h) = (
    over,
    λ k.
        elim k
          as (λ k.
            instant k now backoff < deadline
            → is_healthy (around.attempt (instant k now backoff)) ≡ false) [
              | zero ↦ λ early. sick
              | suc k ↦ λ early. h k early
            ],
  )

  wait_ends :
      (fuel deadline now backoff : ℕ)
      → IsPause backoff
      → deadline ≤ now + fuel * first_backoff
      → (outcome : Bool × ℕ) × (wait around (suc fuel) deadline now backoff ≡ some outcome)
        × IsVerdict deadline now backoff outcome
  unfolding wait IsPause
  wait_ends zero deadline now backoff pause enough =
      ((false, now), ground arith, over_IsVerdict deadline now backoff (ground arith))
  wait_ends (suc fuel) deadline now backoff pause enough =
      let later = woken around now backoff in
      let rest =
        wait_ends fuel deadline later (next_backoff backoff) (next_backoff-IsPause backoff pause) in
      elim (Bool-cases (ltb now deadline)) [
        | inr over ↦ (
          (false, now),
          rw (over, wait) refl,
          over_IsVerdict deadline now backoff (ground (arith, over, lt→ltb now deadline)),
        )
        | inl early ↦ elim (Bool-cases (is_healthy (around.attempt now))) [
          | inl well ↦ (
            (true, now + (around.attempt now).took),
            rw (early, well, wait) refl,
            first_IsVerdict deadline now backoff (ltb→lt now deadline early) well,
          )
          | inr sick ↦
              let (outcome, ended, verdict) =
                rest (enough_later fuel deadline now backoff pause enough) in
              (
                outcome,
                rw (early, sick, wait) ended,
                later_IsVerdict deadline now backoff outcome sick verdict,
              )
        ]
      ]

  -- The wait for health ends: on fuel for one attempt in 100 ms of the timeout, and one, it gives a
  -- verdict, which is healthy if and only if some attempt that began before the deadline was.
  pub wait_for_healthy_ends :
      (fuel timeout now : ℕ)
      → timeout ≤ fuel * first_backoff
      → (outcome : Bool × ℕ) × (wait_for_healthy around (suc fuel) timeout now ≡ some outcome)
        × IsVerdict (now + timeout) now first_backoff outcome
  unfolding wait_for_healthy IsPause
  wait_for_healthy_ends fuel timeout now enough =
      wait_ends fuel (now + timeout) now first_backoff (omega arith, omega arith) (omega arith)

  -- Attempts last at most 4 seconds (1 to dial, 3 for the request), sleeps at most `late` too long.
  unfoldable pub IsPunctual : ℕ → Type 0
  IsPunctual late =
      (at : ℕ) → ((around.attempt at).took ≤ 4_000_000_000) × (around.overslept at ≤ late)

  wait_bound :
      (fuel deadline now backoff late end : ℕ) (well : Bool)
      → IsPunctual late
      → IsPause backoff
      → now ≤ deadline + 6_000_000_000 + late
      → wait around fuel deadline now backoff ≡ some (well, end)
      → end ≤ deadline + 6_000_000_000 + late
  unfolding wait IsPause IsPunctual woken
  wait_bound zero deadline now backoff late end well punctual pause early h = ground (arith, h)
  wait_bound (suc fuel) deadline now backoff late end well punctual pause early h =
      let ih =
        wait_bound fuel deadline (woken around now backoff) (next_backoff backoff) late end well
          punctual (next_backoff-IsPause backoff pause) in
      ground (arith, ih, punctual now, h)

  -- The wait ends, and no later than 6 seconds (an attempt of at most 4 and a pause of at most 2) and
  -- what one sleep may last too long after the timeout.
  wait_for_healthy_bound :
      (fuel timeout now late : ℕ)
      → timeout ≤ fuel * first_backoff
      → IsPunctual late
      → (outcome : Bool × ℕ) × (wait_for_healthy around (suc fuel) timeout now ≡ some outcome)
        × (outcome.1 ≤ now + timeout + 6_000_000_000 + late)
  unfolding wait_for_healthy IsPause
  wait_for_healthy_bound fuel timeout now late enough punctual =
      let ((well, end), ended, verdict) = wait_for_healthy_ends fuel timeout now enough in
      (
        (well, end),
        ended,
        wait_bound (suc fuel) (now + timeout) now first_backoff late end well punctual
            (omega arith, omega arith) (omega arith) ended,
      )
