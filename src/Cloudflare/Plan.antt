-- ===== src/Cloudflare/Plan.antt =====
-- The dry run (cli/internal/serverless/cloudflare_plan.go): what a deploy would do about each
-- declared resource, from reading the account only. The detail of an item, a text for the reader,
-- is left out.
pub mod Followed
pub mod Dns
pub mod Databases
use next_deploy.Common.{
  Bool, true, false, ◌&&◌, String, Option, none, some, List, [], ◌∷◌, ◌++◌, if◌then◌else◌,
}
use next_deploy.Common.Int.{ℤ}
use next_deploy.Common.Text.{Text, codes, text_eq, to_upper}
use next_deploy.Cloudflare.Api.{
  Api, ApiError, not_found, Answer, got, refused, Index, DnsRecord, Error, api_error, missing_field,
  Result, ok, err, and_then,
}
use next_deploy.Cloudflare.Ensure.{
  VectorizeDecl, wanted_index, same_index, find_kv_namespace_id, find_queue_id,
}
use next_deploy.Cloudflare.Hyperdrive.{HyperdriveDecl, find_hyperdrive_id}
use next_deploy.Cloudflare.D1.{D1Decl, Migrations, find_d1_id, sorted_migration_files}
use next_deploy.Cloudflare.Dns.{
  DnsDecl, effective_ttl, dns_record_fqdn, is_single_valued, any_matches, get_zone_id,
  find_dns_records, is_missing,
}

pub data PlanAction : Type 0 where
  create_it update_it no_op drift : PlanAction

pub record PlanItem : Type 0 where
  pub kind : Text
  pub name : Text
  pub action : PlanAction

pub record ZoneSettings : Type 0 where
  pub zone : Text
  pub min_ttl : ℤ

pub record Resources : Type 0 where
  pub d1 : List D1Decl
  pub kv : List Text
  pub hyperdrive : List HyperdriveDecl
  pub queues : List Text
  pub vectorize : List VectorizeDecl
  pub ai_gateway : List Text
  pub dns : List DnsDecl
  pub zone_settings : Option ZoneSettings

unfoldable pub is_drift : PlanAction → Bool
is_drift drift = true
is_drift _ = false

unfoldable pub has_drift : List PlanItem → Bool
unfolding is_drift
has_drift [] = false
has_drift (i ∷ items) = let rest = has_drift items in if is_drift i.action then true else rest

abbrev pub item : String → Text → PlanAction → PlanItem
item kind name action = record { kind = codes kind; name = name; action = action }

-- Missing or there.
abbrev pub presence : String → Text → PlanAction → Option Text → PlanItem
presence kind name found none = item kind name create_it
presence kind name found (some id) = item kind name found

abbrev pub index_item : Text → Index → Answer Index → Result PlanItem
index_item name wanted (got existing) =
    ok (item "vectorize" name (if same_index wanted existing then no_op else drift))
index_item name wanted (refused not_found) = ok (item "vectorize" name create_it)
index_item name wanted (refused e) = err (api_error e)

abbrev pub gateway_item : Text → Answer (Unit {0}) → Result PlanItem
gateway_item slug (got u) = ok (item "ai_gateway" slug no_op)
gateway_item slug (refused not_found) = ok (item "ai_gateway" slug create_it)
gateway_item slug (refused e) = err (api_error e)

-- What a list of records asks for: a match anywhere leaves it, a sole single-valued record is
-- updated, all else is created.
unfoldable pub dns_action : DnsDecl → List DnsRecord → PlanAction
dns_action d [] = create_it
dns_action d (r ∷ []) =
    if any_matches d.content (effective_ttl d.ttl) d.proxied (r ∷ [])
    then no_op
    else if is_single_valued (to_upper d.kind)
    then update_it
    else create_it
dns_action d (r ∷ s ∷ rs) =
    if any_matches d.content (effective_ttl d.ttl) d.proxied (r ∷ s ∷ rs) then no_op else create_it

unfoldable pub dns_item : DnsDecl → List DnsRecord → PlanItem
dns_item d existing = record {
  kind = codes "dns";
  name = to_upper d.kind ++ (codes "/" ++ dns_record_fqdn d.name d.zone);
  action = dns_action d existing;
}

-- The loop over the declarations of one kind, which ends at the first error.
unfoldable pub plan_each : {A : Type 0} → (A → Result PlanItem) → List A → Result (List PlanItem)
plan_each plan [] = ok []
plan_each plan (a ∷ more) =
    and_then (plan a) λ i. and_then (plan_each plan more) λ items. ok (i ∷ items)

-- A loop after another.
infixl 5 ◌|>◌
unfoldable pub ◌|>◌ : Result (List PlanItem) → Result (List PlanItem) → Result (List PlanItem)
p |> q = and_then p λ xs. and_then q λ ys. ok (xs ++ ys)

module _ {World : Type 0} (api : Api World) where
  unfoldable pub plan_kv : World → Text → Result PlanItem
  plan_kv w name =
      if text_eq name []
      then err missing_field
      else and_then (find_kv_namespace_id api name w) λ id. ok (presence "kv" name no_op id)

  unfoldable pub plan_hyperdrive : World → HyperdriveDecl → Result PlanItem
  plan_hyperdrive w d =
      and_then (find_hyperdrive_id api d.name w)
        λ id. ok (presence "hyperdrive" d.name update_it id)

  unfoldable pub plan_queue : World → Text → Result PlanItem
  plan_queue w name = and_then (find_queue_id api name w) λ id. ok (presence "queue" name no_op id)

  unfoldable pub plan_vectorize : World → VectorizeDecl → Result PlanItem
  plan_vectorize w d =
      and_then (wanted_index d) λ wanted. index_item d.name wanted (api.get_vectorize w d.name)

  unfoldable pub plan_ai_gateway : World → Text → Result PlanItem
  plan_ai_gateway w slug =
      if text_eq slug [] then err missing_field else gateway_item slug (api.get_gateway w slug)

  unfoldable pub plan_dns_record : World → DnsDecl → Result PlanItem
  unfolding dns_item
  plan_dns_record w d =
      if is_missing d
      then err missing_field
      else and_then (get_zone_id api d.zone w) λ zone_id.
        and_then (find_dns_records api zone_id (dns_record_fqdn d.name d.zone) (to_upper d.kind) w)
          λ existing. ok (dns_item d existing)

module _ {World : Type 0} (fs : Migrations) (api : Api World) where
  unfoldable pub migrations_read : D1Decl → Result (Unit {0})
  migrations_read d =
      if text_eq d.migrations_dir []
      then ok tt
      else and_then (sorted_migration_files fs d.migrations_dir) λ files. ok tt

  unfoldable pub plan_d1 : World → D1Decl → Result PlanItem
  unfolding migrations_read
  plan_d1 w d =
      if text_eq d.name []
      then err missing_field
      else and_then (find_d1_id api d.name w)
          λ id. and_then (migrations_read d) λ u. ok (presence "d1" d.name no_op id)

  -- An account is planned for a configuration with resources.
  unfoldable pub plan : Resources → World → Result (List PlanItem)
  plan r w =
      plan_each (plan_d1 w) r.d1
      |> plan_each (plan_kv api w) r.kv
      |> plan_each (plan_hyperdrive api w) r.hyperdrive
      |> plan_each (plan_queue api w) r.queues
      |> plan_each (plan_vectorize api w) r.vectorize
      |> plan_each (plan_ai_gateway api w) r.ai_gateway
      |> plan_each (plan_dns_record api w) r.dns
