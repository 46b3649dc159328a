-- ===== src/Daemon/ReplayGuard.antt =====
-- ReplayGuard of daemon/internal/daemon/security.go: fresh timestamps and nonces that are not seen
-- again. The wall clock of the timestamps and the monotonic clock of the entries are one clock.
pub mod Seen
pub mod Replay
mod Tests
use next_deploy.Common.{
  ℕ, ◌-◌, ◌*◌, Bool, true, false, not, ◌&&◌, Option, none, some, [], leb, ltb, ◌==◌, if◌then◌else◌,
}
use next_deploy.Common.Int.{ℤ, pos, negsuc, ltb_ℤ}
use next_deploy.Common.Text.{Text, text_eq}
use next_deploy.Common.Map.{Map, get, put, retain}
use next_deploy.Daemon.Clock.{second, sub_time, neg_duration, unix_time}

pub data CheckError : Type 0 where
  missing_timestamp missing_nonce outside_window replayed_nonce : CheckError

pub record ReplayGuard : Type 0 where
  pub seen : Map ℕ
  pub window : ℤ

unfoldable pub new_replay_guard : ℤ → ReplayGuard
new_replay_guard window = record { seen = []; window = window }

-- 5 * time.Minute, the window of NewCommandHandler.
abbrev pub five_minutes : ℕ
five_minutes = 300 * second

is_zero : ℤ → Bool
is_zero (pos n) = n == 0
is_zero (negsuc n) = false

-- The distance between the clock and a timestamp, as a duration.
skew : ℕ → ℤ → ℤ
unfolding sub_time neg_duration unix_time
skew now ts =
    let d = sub_time (pos now) (unix_time ts) in if ltb_ℤ d (pos 0) then neg_duration d else d

-- `for n, t := range rg.seen { if now.Sub(t) > rg.window { delete(rg.seen, n) } }`
pub prune : ℕ → ReplayGuard → ReplayGuard
unfolding sub_time
prune now rg = record rg {
  seen = retain (λ t. not (ltb_ℤ rg.window (sub_time (pos now) (pos t)))) rg.seen;
}

record_nonce : ℕ → Text → ReplayGuard → Option CheckError × ReplayGuard
record_nonce now nonce rg = elim (get nonce rg.seen) [
  | some t ↦ (some replayed_nonce, rg)
  | none ↦ (none, record rg { seen = put nonce now rg.seen })
]

-- Check at the time `now`: no error is `none`.
unfoldable pub check : ℕ → ℤ → Text → ReplayGuard → Option CheckError × ReplayGuard
unfolding is_zero skew prune record_nonce
check now ts nonce rg =
    if is_zero ts
    then (some missing_timestamp, rg)
    else if text_eq nonce []
    then (some missing_nonce, rg)
    else if ltb_ℤ rg.window (skew now ts)
    then (some outside_window, rg)
    else record_nonce now nonce (prune now rg)
