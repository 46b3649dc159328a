-- ===== src/Daemon/ReplayGuard/Replay.antt =====
-- Replays through Check of daemon/internal/daemon/security.go: which are stopped, and which are not.
use next_deploy.Common.{
  ℕ, ◌+◌, ◌-◌, ◌*◌, ◌≤◌, ◌<◌, ◌≡◌, ◌≢◌, false, Option, none, some, List, [], ◌∷◌, arith, ltb, ◌||◌,
  ◌↔◌,
}
use next_deploy.Common.Int.{ℤ, pos, negsuc, ltb_ℤ}
use next_deploy.Common.Text.{Text, text_eq_iff, text_eq_refl}
use next_deploy.Common.Map.{get, get-put}
use next_deploy.Daemon.Clock.{second, max_duration, sub_time, neg_duration, unix_time}
use next_deploy.Daemon.ReplayGuard.{ReplayGuard, check, prune, skew}
use next_deploy.Daemon.ReplayGuard.Seen.{IsGuard, alive, get-prune, check-IsGuard, get-check}

-- The timestamp is not later than the clock.
abbrev pub IsPast : ℕ → ℤ → Type 0
IsPast t (pos s) = s * second ≤ t
IsPast t (negsuc s) = Unit

-- The nanoseconds from a timestamp to the clock.
abbrev pub age : ℕ → ℤ → ℕ
age now (pos s) = now - s * second
age now (negsuc s) = now + (s + 1) * second

-- The nanoseconds from the clock to a timestamp.
abbrev pub ahead : ℕ → ℤ → ℕ
ahead now (pos s) = s * second - now
ahead now (negsuc s) = 0

module _ (w now : ℕ) (small : w < max_duration) (early : now ≤ max_duration) where
  skew_past : (ts : ℤ) → IsPast now ts → ltb_ℤ (pos w) (skew now ts) ≡ ltb w (age now ts)
  unfolding skew sub_time neg_duration unix_time
  skew_past (pos s) past = ground arith
  skew_past (negsuc s) past = ground arith

  skew_near :
      (ts : ℤ)
      → IsPast max_duration ts
      → ltb_ℤ (pos w) (skew now ts) ≡ (ltb w (age now ts) || ltb w (ahead now ts))
  unfolding skew sub_time neg_duration unix_time
  skew_near (pos s) fits = ground arith
  skew_near (negsuc s) fits = ground arith

  skew_far :
      (s : ℕ)
      → now + max_duration < s * second
      → s ≤ max_duration - 62_135_596_800
      → ltb_ℤ (pos w) (skew now (pos s)) ≡ false
  unfolding skew sub_time neg_duration unix_time
  skew_far s later fits = ground arith

-- Checks in the order of the clock, from `t` to `t'`: the time, the timestamp and the nonce of each.
abbrev pub Checks : ℕ → List (ℕ × ℤ × Text) → ℕ → Type 0
Checks t [] t' = t ≤ t'
Checks t ((now, ts, nonce) ∷ events) t' = (t ≤ now) × Checks now events t'

Checks-le : {t t' : ℕ} (events : List (ℕ × ℤ × Text)) → Checks t events t' → t ≤ t'
Checks-le [] h = h
Checks-le ((now, ts, nonce) ∷ events) h = omega (arith, Checks-le events h.1)

pub run_checks : List (ℕ × ℤ × Text) → ReplayGuard → ReplayGuard
run_checks [] rg = rg
run_checks ((now, ts, nonce) ∷ events) rg = run_checks events (check now ts nonce rg).1

-- What the guard holds of a nonce that was accepted at `t0`, at the time `t`: an entry as late as
-- that, or nothing, once it is too old.
abbrev pub Guarded : ℕ → ℕ → ℕ → Option ℕ → Type 0
Guarded w t0 t none = w + t0 < t
Guarded w t0 t (some u) = (t0 ≤ u) × (u ≤ t)

module _ (w : ℕ) (small : w < max_duration) (t0 : ℕ) (k : Text) where
  pub Guarded-check :
      (t now : ℕ) (ts : ℤ) (nonce : Text) (rg : ReplayGuard)
      → IsGuard w rg
      → t0 ≤ t
      → t ≤ now
      → Guarded w t0 t (get k rg.seen)
      → Guarded w t0 now (get k (check now ts nonce rg).1.seen)
  Guarded-check t now ts nonce rg valid late le g =
      ground (arith, get-check w now ts nonce rg valid small k)

  Guarded-run_checks :
      (events : List (ℕ × ℤ × Text)) (t t' : ℕ) (rg : ReplayGuard)
      → IsGuard w rg
      → t0 ≤ t
      → Checks t events t'
      → Guarded w t0 t (get k rg.seen)
      → Guarded w t0 t' (get k (run_checks events rg).seen) × IsGuard w (run_checks events rg)
  unfolding run_checks
  Guarded-run_checks [] t t' rg valid late line g = (ground arith, valid)
  Guarded-run_checks ((now, ts, nonce) ∷ events) t t' rg valid late (le, line) g =
      Guarded-run_checks events now t' (check now ts nonce rg).1
        (check-IsGuard w now ts nonce rg valid small) (omega arith) line
        (Guarded-check t now ts nonce rg valid late le g)

module _ (w now : ℕ) (ts : ℤ) (nonce : Text) (rg : ReplayGuard) (valid : IsGuard w rg)
    (small : w < max_duration) where
  -- An accepted nonce is entered with the time of its check.
  pub accepted_seen :
      (check now ts nonce rg).0 ≡ none → get nonce (check now ts nonce rg).1.seen ≡ some now
  unfolding check
  accepted_seen ok = ground (arith, get-put nonce nonce now (prune now rg).seen, text_eq_refl nonce)

  pub refused :
      (t0 : ℕ)
      → t0 ≤ now
      → now ≤ max_duration
      → IsPast t0 ts
      → Guarded w t0 now (get nonce rg.seen)
      → (check now ts nonce rg).0 ≢ none
  unfolding check
  refused t0 le early past g =
      ground (
        arith,
        skew_past w now small early ts,
        get-prune w now rg valid small nonce,
        valid.windowed,
      )

-- With a valid guard whose window is below the largest duration, and a clock before 2262: once a
-- nonce is accepted at `t0` with a timestamp that is not later than the clock, the same timestamp
-- and nonce are refused at any later time, whatever is checked in between.
pub no_replay :
    (w : ℕ) (t0 t2 : ℕ) (ts : ℤ) (nonce : Text) (rg : ReplayGuard) (between : List (ℕ × ℤ × Text))
    → IsGuard w rg
    → w < max_duration
    → t2 ≤ max_duration
    → IsPast t0 ts
    → (check t0 ts nonce rg).0 ≡ none
    → Checks t0 between t2
    → (check t2 ts nonce (run_checks between (check t0 ts nonce rg).1)).0 ≢ none
no_replay w t0 t2 ts nonce rg between valid small early past ok line =
    let held = accepted_seen w t0 ts nonce rg valid small ok in
    let after =
      Guarded-run_checks w small t0 nonce between t0 t2 (check t0 ts nonce rg).1
        (check-IsGuard w t0 ts nonce rg valid small) (omega arith) line (rw held (omega arith)) in
    refused w t2 ts nonce (run_checks between (check t0 ts nonce rg).1) after.1 small t0
      (Checks-le between line) early past after.0

-- A check before 2262 is accepted exactly when the timestamp is not zero and within the window of
-- the clock, the nonce is not empty, and the guard holds it no longer; for timestamps at most 292
-- years ahead of 1970.
pub check_accepts :
    (w now : ℕ) (ts : ℤ) (nonce : Text) (rg : ReplayGuard)
    → IsGuard w rg
    → w < max_duration
    → now ≤ max_duration
    → IsPast max_duration ts
    → ((check now ts nonce rg).0 ≡ none) ↔ (
        (ts ≢ pos 0)
        × (age now ts ≤ w)
        × (ahead now ts ≤ w)
        × (nonce ≢ [])
        × (alive w now (get nonce rg.seen) ≡ none))
unfolding check
check_accepts w now (pos s) nonce rg valid small early fits =
    let near = skew_near w now small early (pos s) fits in
    let gone = get-prune w now rg valid small nonce in
    (
      ground (arith, near, gone, valid.windowed, text_eq_iff nonce []),
      ground (arith, near, gone, valid.windowed, text_eq_iff nonce []),
    )
check_accepts w now (negsuc s) nonce rg valid small early fits =
    let near = skew_near w now small early (negsuc s) fits in
    let gone = get-prune w now rg valid small nonce in
    (
      ground (arith, near, gone, valid.windowed, text_eq_iff nonce []),
      ground (arith, near, gone, valid.windowed, text_eq_iff nonce []),
    )

-- A command that is dated ahead of the clock can be replayed: accepted at `t0`, it is accepted again
-- at any `t2` that is more than a window after `t0`, and at most a window after its timestamp.
future_replayed :
    (w t0 t2 s : ℕ) (nonce : Text) (rg : ReplayGuard)
    → IsGuard w rg
    → w < max_duration
    → s * second + w ≤ max_duration
    → (check t0 (pos s) nonce rg).0 ≡ none
    → t0 + w < t2
    → t2 ≤ s * second + w
    → (check t2 (pos s) nonce (check t0 (pos s) nonce rg).1).0 ≡ none
future_replayed w t0 t2 s nonce rg valid small fits ok later soon =
    let rg' = (check t0 (pos s) nonce rg).1 in
    let first =
      (check_accepts w t0 (pos s) nonce rg valid small (omega arith) (omega arith)).0 ok in
    let held = accepted_seen w t0 (pos s) nonce rg valid small ok in
    let valid' = check-IsGuard w t0 (pos s) nonce rg valid small in
    (check_accepts w t2 (pos s) nonce rg' valid' small (omega arith) (omega arith)).1
      (first.0, omega arith, omega arith, first.3, rw held (ground arith))

-- A timestamp more than 292 years ahead passes the window test, whatever the window: the difference
-- saturates at the smallest duration, whose negation is itself.
pub far_future_accepted :
    (w now s : ℕ) (nonce : Text) (rg : ReplayGuard)
    → IsGuard w rg
    → w < max_duration
    → now ≤ max_duration
    → now + max_duration < s * second
    → s ≤ max_duration - 62_135_596_800
    → nonce ≢ []
    → alive w now (get nonce rg.seen) ≡ none
    → (check now (pos s) nonce rg).0 ≡ none
unfolding check
far_future_accepted w now s nonce rg valid small early far fits given absent = ground (
  arith,
  skew_far w now small early s,
  get-prune w now rg valid small nonce,
  valid.windowed,
  text_eq_iff nonce [],
)
