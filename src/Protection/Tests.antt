-- ===== src/Protection/Tests.antt =====
-- A guard with a rate limit and no authentication (BuildRuntime, shared/protection/protection.go).
use next_deploy.Common.{◌≡◌, refl, true, some, [], ◌∷◌}
use next_deploy.Common.Int.{pos}
use next_deploy.Common.Sort.{sort}
use next_deploy.Common.Text.{codes, text_eq, text_le}
use next_deploy.Protection.{
  ProtectionConfig, GuardRuntime, guarded, build_runtime, has_rules, has_some, auth_runtime,
  login_paths, non_empty, dedup, dedup_from, is_seen, default_str, default_slice, always_public,
}
use next_deploy.Protection.Public.{IsGuard, build_runtime-IsGuard}

abbrev config : ProtectionConfig
config = record {
  enabled = true;
  public_paths = codes "/about" ∷ [] ∷ codes "/robots.txt" ∷ [];
  auth = some (record {
    secret_env = [];
    cookie_name = codes "sid";
    protected_paths = codes "/admin/*" ∷ [];
    login_path = [];
  });
  rate_limit = some (record { kv_binding = []; requests_per_minute = pos 0; paths = [] });
  allow = [];
  deny = codes "10.0.0.0/8" ∷ [];
}

abbrev guard : GuardRuntime
guard = record {
  version = 1;
  public_paths =
      codes "/_next/*"
      ∷ codes "/about"
      ∷ codes "/favicon.ico"
      ∷ codes "/login"
      ∷ codes "/robots.txt"
      ∷ [];
  allow = [];
  deny = codes "10.0.0.0/8" ∷ [];
  auth = some (record {
    secret_env = codes "AUTH_SECRET";
    cookie_name = codes "sid";
    protected_paths = codes "/admin/*" ∷ [];
    login_path = codes "/login";
  });
  rate_limit = some (record {
    kv_binding = codes "RATE_LIMIT";
    requests_per_minute = 60;
    paths = codes "/*" ∷ [];
  });
}

guard_test : build_runtime (some config) ≡ guarded guard
unfolding build_runtime has_rules has_some auth_runtime login_paths non_empty dedup dedup_from
    is_seen default_str default_slice always_public text_eq text_le sort
guard_test = refl

build_runtime-IsGuard_example : IsGuard config guard
build_runtime-IsGuard_example = build_runtime-IsGuard config guard guard_test
