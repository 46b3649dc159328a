-- ===== src/Cloudflare/Tests/Deploys.antt =====
-- A configuration that is in place, and the manifest.
use next_deploy.Common.{◌≡◌, refl, none, some, List, [], ◌∷◌, arith}
use next_deploy.Common.Int.{pos}
use next_deploy.Common.Text.{codes, text_eq, text_le, to_lower, trim_space}
use next_deploy.Common.Map.{get, put, remove}
use next_deploy.Manifest.{
  Manifest, new, set, key, key_of, sort_records, insert_record, values, list, load, save,
}
use next_deploy.Cloudflare.Api.{done, ok, first_named, no_match}
use next_deploy.Cloudflare.Ensure.{
  VectorizeDecl, wanted_index, normalize_vectorize_metric, same_index, same_metric,
  ensure_kv_namespace, ensure_queue, or_create, find_kv_namespace_id, find_queue_id, positive,
}
use next_deploy.Cloudflare.D1.{find_d1_id}
use next_deploy.Cloudflare.Plan.{
  Resources, PlanItem, plan, plan_each, plan_d1, plan_kv, plan_vectorize, plan_dns_record, ◌|>◌,
  no_op, item, plan_hyperdrive, plan_queue, plan_ai_gateway, migrations_read,
}
use next_deploy.Cloudflare.Provision.{
  Provider, Session, record_all, record_one, prior_manifest, provision_each, provision_one,
  on_account, brought, note_id, set_id, cut_colon, before, deferred, persist, apply, provision_all,
  provision_resources,
}
use next_deploy.Cloudflare.Provision.Steady.{AllNoOp}
use next_deploy.Cloudflare.Provision.Settled.{IsPlain, apply_settled}
use next_deploy.Cloudflare.Provision.Recorded.{
  IsReadBack, manifest_of, recorded, entry, provision_resources-recorded,
}
use next_deploy.Cloudflare.Provision.Kept.{provider_of}
use next_deploy.Cloudflare.Teardown.{
  teardown_records, keep_failed, is_failure, delete_provisioned_resource, teardown_manifest,
}
use next_deploy.Cloudflare.Teardown.Survivors.{
  IsAccounted, HasFailed, answered, teardown_manifest-IsAccounted,
}
use next_deploy.Cloudflare.Tests.Account.{Records, account, no_files, no_environment}

abbrev docs : VectorizeDecl
docs = record { name = codes "docs"; dimensions = pos 1024; metric = codes "Cosine" }

-- A database, a namespace, an index and a queue that are all there.
abbrev in_place : Resources
in_place = record {
  d1 = record { name = codes "main"; migrations_dir = []; location_hint = [] } ∷ [];
  kv = codes "cache" ∷ [];
  hyperdrive = [];
  queues = codes "jobs" ∷ [];
  vectorize = record { name = codes "docs"; dimensions = pos 768; metric = codes "cosine" } ∷ [];
  ai_gateway = [];
  dns = [];
  zone_settings = none;
}

abbrev planned : List PlanItem
planned =
    item "d1" (codes "main") no_op
    ∷ item "kv" (codes "cache") no_op
    ∷ item "queue" (codes "jobs") no_op
    ∷ item "vectorize" (codes "docs") no_op
    ∷ []

in_place-planned : plan no_files account in_place [] ≡ ok planned
unfolding plan plan_each ◌|>◌ plan_d1 plan_kv plan_hyperdrive plan_queue plan_vectorize
    plan_ai_gateway plan_dns_record migrations_read find_d1_id find_kv_namespace_id find_queue_id
    first_named wanted_index positive normalize_vectorize_metric same_index same_metric to_lower
    trim_space text_eq
in_place-planned = refl

abbrev provider : Provider Records
provider = record { account = []; provisioned = []; state_file = none }

-- A manifest of one namespace, and a file format that knows no other.
abbrev cache_manifest : Manifest
cache_manifest = record {
  version = 1;
  resources =
      (
        codes "kv:cache",
        record {
          kind = codes "kv";
          name = codes "cache";
          id = codes "id-1";
          updated_at = codes "2025-01-01T00:00:00Z";
        },
      )
      ∷ [];
}

abbrev session : Session
session = record {
  codec = record {
    to_json = λ m. codes "{}";
    of_json = λ t. some cache_manifest;
    encrypt = λ d k. some d;
    base64_decode = λ t. some t;
    decrypt = λ d k. some d;
  };
  derive_key = λ t. some t;
  api_token = codes "token";
  now = codes "2025-01-01T00:00:00Z";
}

apply_settled_example :
    (q : Provider Records) × (apply no_environment no_files account session in_place provider
      ≡ done planned q)
    × (q.account ≡ [])
unfolding IsPlain AllNoOp
apply_settled_example =
    apply_settled no_environment no_files account session in_place provider planned
      ((refl, tt), (λ e. ground (arith, e), tt), tt, refl) in_place-planned
      (refl, (refl, (refl, (refl, tt))))

abbrev cache_only : Resources
cache_only = record {
  d1 = [];
  kv = codes "cache" ∷ [];
  hyperdrive = [];
  queues = codes "lost" ∷ [];
  vectorize = [];
  ai_gateway = [];
  dns = [];
  zone_settings = none;
}

cache-IsReadBack : IsReadBack session.codec (codes "token") (
    manifest_of session
      (codes "token")
      (provider_of (provision_all no_environment no_files account cache_only provider)).provisioned
      none)
unfolding record_all record_one prior_manifest load save new provision_all provision_each
    provision_one on_account brought note_id set_id set key put remove get cut_colon before
    ensure_kv_namespace find_kv_namespace_id or_create ensure_queue find_queue_id first_named
    no_match text_eq
cache-IsReadBack = (codes "{}", refl, refl)

provision_resources-recorded_example :
    (m : Manifest) × (load session.codec
        (provider_of (
          provision_resources no_environment no_files account session cache_only
            provider)).state_file
        (codes "token")
      ≡ some m)
    × (get (codes "kv:cache") m.resources
        ≡ some (record {
          kind = codes "kv";
          name = codes "cache";
          id = codes "id-1";
          updated_at = codes "2025-01-01T00:00:00Z";
        }))
unfolding provision_resources deferred persist recorded entry record_all record_one prior_manifest
    load save new provision_all provision_each provision_one on_account brought note_id set_id set
    key put remove get cut_colon before ensure_kv_namespace find_kv_namespace_id or_create
    ensure_queue find_queue_id first_named no_match text_eq
provision_resources-recorded_example =
    provision_resources-recorded no_environment no_files account session cache_only provider
      (codes "token") (codes "kv:cache") tt (λ e. ground (arith, e)) refl cache-IsReadBack

-- A namespace that cannot be deleted, and a queue that is gone already.
abbrev two_left : Manifest
two_left =
    set (codes "kv") (codes "cache") (codes "id-1") (codes "1")
      (set (codes "queue") (codes "jobs") (codes "id-2") (codes "1") new)

teardown_kept : (teardown_manifest account [] two_left).failed ≡ codes "kv:cache" ∷ []
unfolding teardown_manifest teardown_records keep_failed is_failure delete_provisioned_resource list
    sort_records insert_record values key_of set new key put remove text_eq text_le
teardown_kept = refl

teardown_manifest-IsAccounted_example :
    IsAccounted
      (HasFailed (answered account (list two_left) []))
      (teardown_manifest account [] two_left)
teardown_manifest-IsAccounted_example = teardown_manifest-IsAccounted account [] two_left
