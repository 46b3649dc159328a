-- ===== src/Protection/Public.antt =====
-- What a guard lets through and how it limits (BuildRuntime, shared/protection/protection.go).
use next_deploy.Common.{
  ◌<◌, ◌≡◌, ◌≢◌, ◌↔◌, ◌⊎◌, inl, inr, refl, true, Option, none, some, List, [], ◌∷◌, ◌++◌, arith, In,
  Bool-cases,
}
use mathlib.Core.Path.{subst}
use next_deploy.Common.Int.{ℤ, pos, negsuc}
use next_deploy.Common.Text.{Text, text_eq_iff}
use next_deploy.Common.Sort.{In-sort_iff}
use next_deploy.Protection.{
  Auth, RateLimit, RateLimitRuntime, ProtectionConfig, GuardRuntime, guarded, default_str,
  non_empty, is_seen, dedup_from, dedup, always_public, auth_runtime, login_paths, rate_of, limited,
  public_of, with_limit, checked_limit, limit_rules, build_runtime,
}

is_seen_iff : (s : Text) (xs : List Text) → (is_seen s xs ≡ true) ↔ In s xs
unfolding is_seen
is_seen_iff s [] = ground arith
is_seen_iff s (x ∷ xs) = ground (arith, is_seen_iff s xs, text_eq_iff x s)

In-dedup_from_iff :
    (p : Text) (seen ss : List Text)
    → In p (dedup_from seen ss) ↔ (In p ss × (p ≢ []) × ¬ In p seen)
unfolding dedup_from
In-dedup_from_iff p seen [] = ground arith
In-dedup_from_iff p seen (s ∷ ss) = ground (
  arith,
  In-dedup_from_iff p seen ss,
  In-dedup_from_iff p (s ∷ seen) ss,
  is_seen_iff s seen,
  text_eq_iff s [],
  text_eq_iff p s,
)

In-append_iff : (p : Text) (xs ys : List Text) → In p (xs ++ ys) ↔ (In p xs ⊎ In p ys)
In-append_iff p [] ys = ground arith
In-append_iff p (x ∷ xs) ys = ground (arith, In-append_iff p xs ys)

In-non_empty_iff : (p : Text) (xs : List Text) → In p (non_empty xs) ↔ (In p xs × (p ≢ []))
unfolding non_empty
In-non_empty_iff p [] = ground arith
In-non_empty_iff p (x ∷ xs) = ground (arith, In-non_empty_iff p xs, text_eq_iff x [])

login-ne_nil : (a : Option Auth) (p : Text) → In p (login_paths (auth_runtime a)) → p ≢ []
unfolding login_paths auth_runtime default_str
login-ne_nil none p i = elim i [ ]
login-ne_nil (some a) p i = ground (arith, text_eq_iff a.login_path [], i)

always_public-ne_nil : (p : Text) → In p always_public → p ≢ []
unfolding always_public
always_public-ne_nil p i = ground (arith, i)

-- A path is the one to log in at.
abbrev pub IsLogin : Text → Option Auth → Type 0
IsLogin p none = ⊥
IsLogin p (some a) = p ≡ a.login_path

In-login_paths_iff : (p : Text) (a : Option Auth) → In p (login_paths a) ↔ IsLogin p a
unfolding login_paths
In-login_paths_iff p none = ground arith
In-login_paths_iff p (some a) = ground arith

-- The paths that a guard leaves open.
public_of_iff :
    (c : ProtectionConfig) (p : Text)
    → In p (public_of c)
      ↔ (In p always_public ⊎ (In p c.public_paths × (p ≢ [])) ⊎ IsLogin p (auth_runtime c.auth))
unfolding public_of dedup
public_of_iff c p =
    let login = login_paths (auth_runtime c.auth) in
    let all = always_public ++ (non_empty c.public_paths ++ login) in
    ground (
      arith,
      In-sort_iff p (dedup_from [] all),
      In-dedup_from_iff p [] all,
      In-append_iff p always_public (non_empty c.public_paths ++ login),
      In-append_iff p (non_empty c.public_paths) login,
      In-non_empty_iff p c.public_paths,
      login-ne_nil c.auth p,
      In-login_paths_iff p (auth_runtime c.auth),
      always_public-ne_nil p,
    )

-- A rate limit that lets something through.
abbrev pub IsPositive : Option RateLimitRuntime → Type 0
IsPositive none = Unit
IsPositive (some limit) = 0 < limit.requests_per_minute

-- A guard of this configuration: what it leaves open, how it limits, and how it authenticates.
pub record IsGuard (c : ProtectionConfig) (rt : GuardRuntime) : Type 0 where
  pub opens :
      (p : Text)
      → In p rt.public_paths
        ↔ (In p always_public ⊎ (In p c.public_paths × (p ≢ [])) ⊎ IsLogin p rt.auth)
  pub positive : IsPositive rt.rate_limit
  pub authenticates : rt.auth ≡ auth_runtime c.auth

-- The guard with a given limit.
abbrev guard_with : ProtectionConfig → Option RateLimitRuntime → GuardRuntime
guard_with c limit = record {
  version = 1;
  public_paths = public_of c;
  allow = non_empty c.allow;
  deny = non_empty c.deny;
  auth = auth_runtime c.auth;
  rate_limit = limit;
}

with_limit-IsGuard :
    (c : ProtectionConfig) (limit : Option RateLimitRuntime) (rt : GuardRuntime)
    → IsPositive limit
    → with_limit c limit ≡ guarded rt
    → IsGuard c rt
unfolding with_limit
with_limit-IsGuard c limit rt h e =
    let same : guard_with c limit ≡ rt = cc e in
    let guard : IsGuard c (guard_with c limit) = record {
      opens = public_of_iff c;
      positive = h;
      authenticates = refl;
    } in
    subst (IsGuard c) same guard

checked_limit-IsGuard :
    (c : ProtectionConfig) (r : RateLimit) (rate : ℤ) (rt : GuardRuntime)
    → checked_limit c (limited r rate) ≡ guarded rt
    → IsGuard c rt
unfolding checked_limit limited rate_of
checked_limit-IsGuard c r (negsuc n) rt h = ground (arith, h)
checked_limit-IsGuard c r (pos rate) rt h =
    with_limit-IsGuard c (some (rate_of r rate)) rt (ground arith) h

limit_rules-IsGuard :
    (c : ProtectionConfig) (r : Option RateLimit) (rt : GuardRuntime)
    → limit_rules c r ≡ guarded rt
    → IsGuard c rt
unfolding limit_rules
limit_rules-IsGuard c none rt h = with_limit-IsGuard c none rt tt h
limit_rules-IsGuard c (some r) rt h = checked_limit-IsGuard c r r.requests_per_minute rt h

-- A guard leaves open exactly the paths of the application shell, the public paths of the
-- configuration that are not blank, and the login path; its rate limit, if it has one, is positive.
pub build_runtime-IsGuard :
    (c : ProtectionConfig) (rt : GuardRuntime) → build_runtime (some c) ≡ guarded rt → IsGuard c rt
unfolding build_runtime
build_runtime-IsGuard c rt h = elim (Bool-cases c.enabled) [
  | inr disabled ↦ absurd (ground (arith, h, disabled))
  | inl enabled ↦ limit_rules-IsGuard c c.rate_limit rt (ground (arith, h, enabled))
]
