-- ===== src/Daemon/Locks/Exclusion.antt =====
-- At most one operation for each app (appLocker, daemon/internal/daemon/command_handler.go).
use next_deploy.Common.{
  ℕ, suc, ◌+◌, ◌≤◌, ◌≡◌, ◌↔◌, refl, true, false, List, [], ◌∷◌, ◌++◌, arith, if◌then◌else◌, not,
}
use next_deploy.Common.Text.{Text, text_eq, text_eq_iff}
use next_deploy.Common.Map.{get, get-put}
use next_deploy.Daemon.Locks.{AppLocker, locked, ensure, try_acquire, release, new_app_locker}

-- The locks, and the app of each operation in progress.
pub record Operations : Type 0 where
  pub locks : AppLocker
  pub holders : List Text

abbrev pub idle : Operations
idle = record { locks = new_app_locker; holders = [] }

-- Operations start, are turned away, and end, in any order.
pub data Step (s : Operations) : Operations → Type 0 where
  start :
      (app : Text) (l : AppLocker)
      → try_acquire app s.locks ≡ (true, l)
      → Step s (record { locks = l; holders = app ∷ s.holders })
  turn_away :
      (app : Text) (l : AppLocker)
      → try_acquire app s.locks ≡ (false, l)
      → Step s (record { locks = l; holders = s.holders })
  end :
      (app : Text) (before after : List Text)
      → s.holders ≡ before ++ app ∷ after
      → Step s (record { locks = release app s.locks; holders = before ++ after })

pub data Reach (s : Operations) : Operations → Type 0 where
  here : Reach s s
  next : {t u : Operations} → Reach s t → Step t u → Reach s u

abbrev pub count : Text → List Text → ℕ
count app [] = 0
count app (x ∷ xs) = let rest = count app xs in if text_eq x app then suc rest else rest

count-append : (app : Text) (xs ys : List Text) → count app (xs ++ ys) ≡ count app xs + count app ys
count-append app [] ys = omega arith
count-append app (x ∷ xs) ys = ground (arith, count-append app xs ys)

-- An app's lock is held by one operation if it is locked, and by none if not.
pub record IsExclusive (s : Operations) : Type 0 where
  pub counted : (app : Text) → count app s.holders ≡ (if locked (get app s.locks) then 1 else 0)

locked-ensure : (app j : Text) (l : AppLocker) → locked (get j (ensure app l)) ≡ locked (get j l)
unfolding ensure
locked-ensure app j l = ground (arith, get-put app j false l, text_eq_iff app j)

-- The lock is got exactly when it is free.
pub try_acquire-locked :
    (app : Text) (l : AppLocker) → (try_acquire app l).0 ≡ not (locked (get app l))
unfolding try_acquire
try_acquire-locked app l = ground (arith, locked-ensure app app l)

pub locked-try_acquire :
    (app j : Text) (l : AppLocker)
    → locked (get j (try_acquire app l).1) ≡ (if text_eq app j then true else locked (get j l))
unfolding try_acquire
locked-try_acquire app j l =
    ground (arith, locked-ensure app j l, get-put app j true (ensure app l), text_eq_iff app j)

Step-IsExclusive : {s t : Operations} → Step s t → IsExclusive s → IsExclusive t
unfolding release
Step-IsExclusive {s} (start app l got) h = record {
  counted = λ j. ground (
    arith,
    h.counted j,
    locked-try_acquire app j s.locks,
    try_acquire-locked app s.locks,
    text_eq_iff app j,
  );
}
Step-IsExclusive {s} (turn_away app l got) h = record {
  counted = λ j. ground (
    arith,
    h.counted j,
    locked-try_acquire app j s.locks,
    try_acquire-locked app s.locks,
    text_eq_iff app j,
  );
}
Step-IsExclusive {s} (end app before after here') h = record {
  counted = λ j. ground (
    arith,
    h.counted j,
    h.counted app,
    here',
    count-append j before (app ∷ after),
    count-append j before after,
    get-put app j false s.locks,
    text_eq_iff app j,
  );
}

Reach-IsExclusive : {s t : Operations} → IsExclusive s → Reach s t → IsExclusive t
Reach-IsExclusive h here = h
Reach-IsExclusive h (next r st) = Step-IsExclusive st (Reach-IsExclusive h r)

idle-IsExclusive : IsExclusive idle
unfolding get
idle-IsExclusive = record { counted = λ app. refl }

-- From an idle daemon, however operations start, are turned away and end, at most one of each app is
-- in progress; and one that asks for the lock of an app gets it exactly when none of that app is.
pub at_most_one :
    (s : Operations) (app : Text)
    → Reach idle s
    → (count app s.holders ≤ 1) × (((try_acquire app s.locks).0 ≡ true) ↔ (count app s.holders ≡ 0))
at_most_one s app r =
    let h = (Reach-IsExclusive idle-IsExclusive r).counted app in
    let e = try_acquire-locked app s.locks in
    (ground (arith, h), (ground (arith, h, e), ground (arith, h, e)))
