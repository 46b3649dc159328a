-- ===== src/Daemon/Locks/Tests.antt =====
-- A ship, and what is turned away while it runs (daemon/internal/daemon/command_handler_test.go).
use next_deploy.Common.{◌≤◌, ◌≡◌, ◌↔◌, refl, true, [], ◌∷◌}
use next_deploy.Common.Text.{Text, codes, text_eq}
use next_deploy.Common.Map.{get, put, remove}
use next_deploy.Daemon.Locks.{try_acquire}
use next_deploy.Daemon.Locks.Exclusion.{
  Operations, idle, start, turn_away, Reach, here, next, count, at_most_one,
}

abbrev app1 : Text
app1 = codes "app1"

abbrev busy : Operations
busy = record { locks = (app1, true) ∷ []; holders = app1 ∷ [] }

-- The first operation gets the lock, a second is turned away.
busy-Reach : Reach idle busy
unfolding try_acquire get put remove text_eq
busy-Reach = next (next here (start app1 busy.locks refl)) (turn_away app1 busy.locks refl)

at_most_one_example :
    (count app1 busy.holders ≤ 1)
    × (((try_acquire app1 busy.locks).0 ≡ true) ↔ (count app1 busy.holders ≡ 0))
at_most_one_example = at_most_one busy app1 busy-Reach
