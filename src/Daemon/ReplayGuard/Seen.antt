-- ===== src/Daemon/ReplayGuard/Seen.antt =====
-- The nonces that a ReplayGuard holds (daemon/internal/daemon/security.go), from check to check.
use next_deploy.Common.{
  ℕ, ◌-◌, ◌<◌, ◌≡◌, refl, not, Option, none, some, arith, ltb, if◌then◌else◌, ◌⊎◌, ◌∙◌,
}
use next_deploy.Common.Int.{ℤ, pos, ltb_ℤ}
use next_deploy.Common.Text.{Text, text_eq_iff}
use next_deploy.Common.Map.{get, get-put, get-retain, retain-IsMap, put-IsMap, IsMap, kept}
use next_deploy.Daemon.Clock.{max_duration, sub_time}
use next_deploy.Daemon.ReplayGuard.{ReplayGuard, check, prune}

-- A guard with a window of `w` nanoseconds whose nonces stand once each.
pub record IsGuard (w : ℕ) (rg : ReplayGuard) : Type 0 where
  pub windowed : rg.window ≡ pos w
  pub distinct : IsMap rg.seen

-- The nonces that are still held at `now`.
abbrev pub alive : ℕ → ℕ → Option ℕ → Option ℕ
alive w now none = none
alive w now (some t) = if ltb w (now - t) then none else some t

module _ (w now : ℕ) (rg : ReplayGuard) (valid : IsGuard w rg) (small : w < max_duration) where
  expired : (t : ℕ) → ltb_ℤ rg.window (sub_time (pos now) (pos t)) ≡ ltb w (now - t)
  unfolding sub_time
  expired t = rw valid.windowed (ground arith)

  kept-alive :
      (o : Option ℕ)
      → kept (λ t. not (ltb_ℤ rg.window (sub_time (pos now) (pos t)))) o ≡ alive w now o
  kept-alive none = refl
  kept-alive (some t) = ground (arith, expired t)

  pub prune-IsGuard : IsGuard w (prune now rg)
  unfolding prune
  prune-IsGuard = record {
    windowed = valid.windowed;
    distinct = retain-IsMap _ rg.seen valid.distinct;
  }

  pub get-prune : (k : Text) → get k (prune now rg).seen ≡ alive w now (get k rg.seen)
  unfolding prune
  get-prune k = get-retain _ k rg.seen valid.distinct ∙ kept-alive (get k rg.seen)

module _ (w now : ℕ) (ts : ℤ) (nonce : Text) (rg : ReplayGuard) where
  module _ (valid : IsGuard w rg) (small : w < max_duration) where
    -- Every check keeps the guard valid.
    pub check-IsGuard : IsGuard w (check now ts nonce rg).1
    unfolding check
    check-IsGuard =
        let p = prune-IsGuard w now rg valid small in
        ground (arith, p, put-IsMap nonce now (prune now rg).seen p.distinct, valid)

    -- What a check leaves of a nonce: it may drop it once it is old, and it enters the accepted one.
    pub get-check :
        (k : Text)
        → let (e, rg') = check now ts nonce rg in
          (get k rg'.seen ≡ get k rg.seen)
          ⊎ (get k rg'.seen ≡ alive w now (get k rg.seen))
          ⊎ ((k ≡ nonce) × (get k rg'.seen ≡ some now))
    unfolding check
    get-check k = ground (
      arith,
      get-prune w now rg valid small k,
      text_eq_iff nonce k,
      get-put nonce k now (prune now rg).seen,
    )
