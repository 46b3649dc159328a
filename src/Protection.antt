-- ===== src/Protection.antt =====
-- The policy of the edge guard (BuildRuntime of shared/protection/protection.go).
pub mod Public
mod Tests
use next_deploy.Common.{
  ℕ, Bool, true, false, not, ◌&&◌, ◌||◌, Option, none, some, List, [], ◌∷◌, ◌++◌, ◌==◌, length,
  if◌then◌else◌,
}
use next_deploy.Common.Int.{ℤ, pos, negsuc}
use next_deploy.Common.Text.{Text, codes, text_eq}
use next_deploy.Common.Sort.{sort}

pub record Auth : Type 0 where
  pub secret_env : Text
  pub cookie_name : Text
  pub protected_paths : List Text
  pub login_path : Text

pub record RateLimit : Type 0 where
  pub kv_binding : Text
  pub requests_per_minute : ℤ
  pub paths : List Text

pub record ProtectionConfig : Type 0 where
  pub enabled : Bool
  pub public_paths : List Text
  pub auth : Option Auth
  pub rate_limit : Option RateLimit
  pub allow : List Text
  pub deny : List Text

pub record RateLimitRuntime : Type 0 where
  pub kv_binding : Text
  pub requests_per_minute : ℕ
  pub paths : List Text

pub record GuardRuntime : Type 0 where
  pub version : ℕ
  pub public_paths : List Text
  pub allow : List Text
  pub deny : List Text
  pub auth : Option Auth
  pub rate_limit : Option RateLimitRuntime

pub data ProtectionError : Type 0 where
  no_rules negative_rate : ProtectionError

-- No guard, a guard, or an error.
pub data Guarded : Type 0 where
  unguarded : Guarded
  guarded : GuardRuntime → Guarded
  refused : ProtectionError → Guarded

unfoldable pub default_str : Text → Text → Text
default_str v default = if text_eq v [] then default else v

unfoldable pub default_slice : List Text → List Text → List Text
default_slice [] default = default
default_slice (v ∷ vs) default = v ∷ vs

unfoldable pub non_empty : List Text → List Text
non_empty [] = []
non_empty (s ∷ ss) = let rest = non_empty ss in if text_eq s [] then rest else s ∷ rest

unfoldable pub is_seen : Text → List Text → Bool
is_seen s [] = false
is_seen s (x ∷ xs) = text_eq x s || is_seen s xs

-- The loop of dedup, with what it has seen.
unfoldable pub dedup_from : List Text → List Text → List Text
dedup_from seen [] = []
dedup_from seen (s ∷ ss) =
    let skipped = dedup_from seen ss in
    let taken = dedup_from (s ∷ seen) ss in
    if text_eq s [] || is_seen s seen then skipped else s ∷ taken

unfoldable pub dedup : List Text → List Text
dedup ss = sort (dedup_from [] ss)

unfoldable pub always_public : List Text
always_public = codes "/_next/*" ∷ codes "/favicon.ico" ∷ codes "/robots.txt" ∷ []

unfoldable pub has_some : Option Auth → Option RateLimit → List Text → List Text → Bool
has_some none none [] [] = false
has_some _ _ _ _ = true

unfoldable pub has_rules : ProtectionConfig → Bool
has_rules c = has_some c.auth c.rate_limit (non_empty c.allow) (non_empty c.deny)

unfoldable pub auth_runtime : Option Auth → Option Auth
auth_runtime none = none
auth_runtime (some a) = some (record {
  secret_env = default_str a.secret_env (codes "AUTH_SECRET");
  cookie_name = default_str a.cookie_name (codes "session");
  login_path = default_str a.login_path (codes "/login");
  protected_paths = default_slice (non_empty a.protected_paths) (codes "/*" ∷ []);
})

-- The login path, which must be public.
unfoldable pub login_paths : Option Auth → List Text
login_paths none = []
login_paths (some a) = a.login_path ∷ []

rate_of : RateLimit → ℕ → RateLimitRuntime
rate_of r rate = record {
  kv_binding = default_str r.kv_binding (codes "RATE_LIMIT");
  requests_per_minute = if rate == 0 then 60 else rate;
  paths = default_slice (non_empty r.paths) (codes "/*" ∷ []);
}

-- The rate limit, or none where the rate is negative.
limited : RateLimit → ℤ → Option RateLimitRuntime
limited r (negsuc n) = none
limited r (pos rate) = some (rate_of r rate)

public_of : ProtectionConfig → List Text
public_of c =
    dedup (always_public ++ (non_empty c.public_paths ++ login_paths (auth_runtime c.auth)))

with_limit : ProtectionConfig → Option RateLimitRuntime → Guarded
with_limit c limit = guarded (record {
  version = 1;
  public_paths = public_of c;
  allow = non_empty c.allow;
  deny = non_empty c.deny;
  auth = auth_runtime c.auth;
  rate_limit = limit;
})

checked_limit : ProtectionConfig → Option RateLimitRuntime → Guarded
checked_limit c none = refused negative_rate
checked_limit c (some limit) = with_limit c (some limit)

limit_rules : ProtectionConfig → Option RateLimit → Guarded
limit_rules c none = with_limit c none
limit_rules c (some r) = checked_limit c (limited r r.requests_per_minute)

unfoldable pub build_runtime : Option ProtectionConfig → Guarded
unfolding limit_rules checked_limit with_limit limited rate_of public_of
build_runtime none = unguarded
build_runtime (some c) =
    if not c.enabled
    then unguarded
    else if not (has_rules c)
    then refused no_rules
    else limit_rules c c.rate_limit
