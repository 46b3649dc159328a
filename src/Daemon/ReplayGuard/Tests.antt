-- ===== src/Daemon/ReplayGuard/Tests.antt =====
-- Runs of the replay guard of daemon/internal/daemon/security.go, with its window of five minutes.
use next_deploy.Common.{ℕ, ◌+◌, ◌*◌, ◌≡◌, ◌≢◌, refl, none, some, List, [], ◌∷◌, arith}
use next_deploy.Common.Int.{ℤ, pos}
use next_deploy.Common.Text.{Text, codes, text_eq}
use next_deploy.Common.Map.{get, put, retain}
use next_deploy.Daemon.Clock.{second}
use next_deploy.Daemon.ReplayGuard.{
  ReplayGuard, outside_window, replayed_nonce, five_minutes, check,
}
use next_deploy.Daemon.ReplayGuard.Seen.{IsGuard}
use next_deploy.Daemon.ReplayGuard.Replay.{run_checks, no_replay}

-- 12:00:00.5 on a day of 2026.
abbrev noon : ℕ
noon = 1_780_000_000_500_000_000

abbrev at_noon : ℤ
at_noon = pos 1_780_000_000

abbrev n1 : Text
n1 = codes "a1"

abbrev guard : ReplayGuard
guard = record { seen = []; window = pos five_minutes }

guard-IsGuard : IsGuard five_minutes guard
guard-IsGuard = record { windowed = refl; distinct = tt }

accepted_once : (check noon at_noon n1 guard).0 ≡ none
unfolding check get text_eq retain
accepted_once = refl

replay_refused :
    (check (noon + 1) at_noon n1 (check noon at_noon n1 guard).1).0 ≡ some replayed_nonce
unfolding check get put text_eq retain
replay_refused = refl

stale_refused : (check (noon + 301 * second) at_noon n1 guard).0 ≡ some outside_window
unfolding check text_eq
stale_refused = refl

abbrev between : List (ℕ × ℤ × Text)
between = (noon + 10 * second, pos 1_780_000_010, codes "b2") ∷ []

no_replay_example :
    (check (noon + 20 * second) at_noon n1 (run_checks between (check noon at_noon n1 guard).1)).0
    ≢ none
no_replay_example =
    no_replay five_minutes noon (noon + 20 * second) at_noon n1 guard between guard-IsGuard
      (omega arith) (omega arith) (omega arith) accepted_once (omega arith)

-- Dated four minutes ahead, and played again six minutes later.
future_accepted : (check noon (pos 1_780_000_240) n1 guard).0 ≡ none
unfolding check get text_eq retain
future_accepted = refl
