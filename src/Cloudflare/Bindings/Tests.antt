-- ===== src/Cloudflare/Bindings/Tests.antt =====
-- A script with a database and a secret (cloudflare_bindings.go in cli/internal/serverless).
use next_deploy.Common.{◌≡◌, refl, true, Option, none, some, [], ◌∷◌}
use next_deploy.Common.Text.{Text, codes, text_eq, text_le}
use next_deploy.Common.Map.{Map, get}
use next_deploy.Common.Sort.{sort}
use next_deploy.Daemon.EnvFile.{keys}
use next_deploy.Cloudflare.Bindings.{
  build_observability, sift, sift_all, secret_bindings, binding_name, assets_binding, has_duplicate,
  bind_ref, bind_all, join_built, build_bindings, CloudflareDecl, ScriptMetadata, r2_bucket,
  d1_database, ai_model, secret_text, build_script_metadata, sorted_keys,
}
use next_deploy.Cloudflare.Bindings.Distinct.{IsComplete, build_script_metadata-IsComplete}
use next_deploy.Cloudflare.Bindings.Sorted.{sorted_keys-sort}

abbrev secrets : Map Text
secrets = (codes "TOKEN", codes "t") ∷ (codes "KEY", codes "k") ∷ []

sorted_keys-sort_example : sorted_keys secrets ≡ sort (keys secrets)
sorted_keys-sort_example = sorted_keys-sort secrets

-- A database by the name that it was provisioned with, and an index of the same kind of name.
abbrev declared : CloudflareDecl
declared = record {
  compatibility_date = [];
  compatibility_flags = [];
  bindings = some (record {
    r2 = [];
    d1 = record { name = codes "DB"; id = []; ref = codes "main" } ∷ [];
    hyperdrive = [];
    producers = [];
    vectorize = [];
    ai = codes "AI" ∷ [];
    durable_objects = [];
    kv = [];
    plain_text = [];
    secrets_store = [];
  });
  observability = none;
  migrations = [];
}

abbrev provisioned : Text → Text → Option Text
provisioned kind name = some (codes "id-7")

abbrev uploaded : ScriptMetadata
uploaded = record {
  main_module = codes "worker.mjs";
  compatibility_date = codes "2025-04-01";
  compatibility_flags = codes "nodejs_compat_v2" ∷ [];
  bindings =
      r2_bucket (codes "ASSETS") (codes "shop-assets")
      ∷ d1_database (codes "DB") (codes "id-7")
      ∷ ai_model (codes "AI")
      ∷ secret_text (codes "KEY") (codes "k")
      ∷ secret_text (codes "TOKEN") (codes "t")
      ∷ [];
  observability = record { enabled = true; head_sampling_rate = 1000000000 };
  migrations = none;
}

build_script_metadata-IsComplete_example : IsComplete secrets uploaded
unfolding build_script_metadata build_bindings join_built bind_all bind_ref text_eq has_duplicate
    assets_binding binding_name secret_bindings sorted_keys sift_all sift text_le get
    build_observability
build_script_metadata-IsComplete_example =
    build_script_metadata-IsComplete (some declared) (codes "shop-assets") (codes "worker.mjs")
      provisioned secrets uploaded refl
