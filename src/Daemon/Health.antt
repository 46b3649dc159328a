-- ===== src/Daemon/Health.antt =====
-- The wait for a healthy release (waitForHealthy, daemon/internal/daemon/command_handler.go): a dial and
-- a request, again and again with a growing pause, until the deadline. Instants are nanoseconds; what
-- an attempt that begins at an instant meets, and how much longer than asked a sleep lasts, are
-- parameters.
pub mod Ended
mod Tests
use next_deploy.Common.{
  ℕ, zero, suc, ◌+◌, ◌*◌, Bool, true, false, ◌&&◌, Option, none, some, List, [], ◌∷◌, ◌++◌, ltb,
  if◌then◌else◌,
}
use next_deploy.Common.Text.{Text, codes, text_eq, has_prefix}

-- An attempt: whether the dial succeeds, the status of the answer, and the time both take.
pub record Attempt : Type 0 where
  pub dialled : Bool
  pub status : Option ℕ
  pub took : ℕ

pub record Surroundings : Type 0 where
  pub attempt : ℕ → Attempt
  pub overslept : ℕ → ℕ

abbrev pub first_backoff : ℕ
first_backoff = 100_000_000

abbrev pub max_backoff : ℕ
max_backoff = 2_000_000_000

-- The path that is asked for.
unfoldable pub health_path : Text → Text
health_path p =
    let given = if text_eq p [] then codes "/" else p in
    if has_prefix given (codes "/") then given else codes "/" ++ given

below_500 : Option ℕ → Bool
below_500 none = false
below_500 (some status) = ltb status 500

unfoldable pub is_healthy : Attempt → Bool
unfolding below_500
is_healthy a = a.dialled && below_500 a.status

-- `backoff *= 2; if backoff > maxBackoff { backoff = maxBackoff }`
unfoldable pub next_backoff : ℕ → ℕ
next_backoff b = if ltb max_backoff (b * 2) then max_backoff else b * 2

module _ (around : Surroundings) where
  -- The instant after an attempt and the sleep that follows it.
  unfoldable pub woken : ℕ → ℕ → ℕ
  woken now backoff = now + (around.attempt now).took + backoff + around.overslept now

  -- The loop, on fuel: whether it was healthy, and when the wait ended.
  unfoldable pub wait : ℕ → ℕ → ℕ → ℕ → Option (Bool × ℕ)
  wait zero deadline now backoff = none
  wait (suc fuel) deadline now backoff =
      let a = around.attempt now in
      let rest = wait fuel deadline (woken now backoff) (next_backoff backoff) in
      if ltb now deadline
      then (if is_healthy a then some (true, now + a.took) else rest)
      else some (false, now)

  unfoldable pub wait_for_healthy : ℕ → ℕ → ℕ → Option (Bool × ℕ)
  wait_for_healthy fuel timeout now = wait fuel (now + timeout) now first_backoff
