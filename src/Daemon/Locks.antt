-- ===== src/Daemon/Locks.antt =====
-- appLocker of daemon/internal/daemon/command_handler.go: one lock for each app, taken without
-- waiting by ship, rollback and destroy, and released when they end.
pub mod Exclusion
mod Tests
use next_deploy.Common.{Bool, true, false, Option, none, some, List, [], ◌∷◌, if◌then◌else◌}
use next_deploy.Common.Text.{Text}
use next_deploy.Common.Map.{Map, get, put}

-- The mutexes: whether each is locked.
abbrev pub AppLocker : Type 0
AppLocker = Map Bool

abbrev pub new_app_locker : AppLocker
new_app_locker = []

-- `m, exists := a.locks[app]; if !exists { … }`
ensure : Text → AppLocker → AppLocker
ensure app l = elim (get app l) [ none ↦ put app false l | some b ↦ l ]

abbrev pub locked : Option Bool → Bool
locked none = false
locked (some b) = b

-- TryLock on the app's mutex, which `ensure` has created.
try_lock : Text → AppLocker → Bool × AppLocker
try_lock app l = if locked (get app l) then (false, l) else (true, put app true l)

unfoldable pub try_acquire : Text → AppLocker → Bool × AppLocker
unfolding ensure try_lock
try_acquire app l = try_lock app (ensure app l)

-- The function that tryAcquire returns.
unfoldable pub release : Text → AppLocker → AppLocker
release app l = put app false l
