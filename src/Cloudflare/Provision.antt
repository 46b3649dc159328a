-- ===== src/Cloudflare/Provision.antt =====
-- Provisioning (cli/internal/serverless/cloudflare_resources.go and cloudflare_apply.go): the declared
-- resources in order, to the first error, and the record of what there is, saved whether or not there
-- was one. A failed write of the state file leaves it as it was.
pub mod Steady
pub mod Settled
pub mod Kept
pub mod Recorded
use next_deploy.Common.{
  ℕ, Bool, true, false, Option, none, some, List, [], ◌∷◌, ◌==◌, if◌then◌else◌,
}
use next_deploy.Common.Text.{Text, codes, text_eq}
use next_deploy.Common.Map.{Map, get, put}
use next_deploy.Manifest.{Manifest, Codec, new, set, key, load, save}
use next_deploy.Cloudflare.Api.{
  Api, Error, Run, done, failed, immutable_drift, Result, ok, err, M, ◌>>=◌, ◌>>◌, continue,
}
use next_deploy.Cloudflare.Ensure.{
  ensure_kv_namespace, ensure_queue, ensure_ai_gateway, ensure_vectorize_index,
}
use next_deploy.Cloudflare.Hyperdrive.{Environment, ensure_hyperdrive}
use next_deploy.Cloudflare.D1.{Migrations, ensure_d1_database}
use next_deploy.Cloudflare.Dns.{ensure_dns_record}
use next_deploy.Cloudflare.Zone.{ensure_zone_settings}
use next_deploy.Cloudflare.Plan.{Resources, ZoneSettings, PlanItem, has_drift, plan}

-- The account, the provider's map of identifiers by `kind:name`, and the file of the manifest.
pub record Provider (World : Type 0) : Type 0 where
  pub account : World
  pub provisioned : Map Text
  pub state_file : Option Text

-- resourceMap.set and resourceMap.get; snapshot copies the map.
unfoldable pub set_id : {World : Type 0} → Text → Text → Text → Provider World → Provider World
set_id kind name id p = record p { provisioned = put (key kind name) id p.provisioned }

unfoldable pub get_id : {World : Type 0} → Text → Text → Provider World → Option Text
get_id kind name p = get (key kind name) p.provisioned

-- A step on the account, within the provider.
unfoldable pub brought : {World A : Type 0} → Provider World → Run World A → Run (Provider World) A
brought p (done a w) = done a (record p { account = w })
brought p (failed e w) = failed e (record p { account = w })

unfoldable pub on_account : {World A : Type 0} → M World A → M (Provider World) A
unfolding brought
on_account m p = brought p (m p.account)

unfoldable pub note_id : {World : Type 0} → Text → Text → Text → M (Provider World) (Unit {0})
note_id kind name id p = done tt (set_id kind name id p)

unfoldable pub provision_one :
    {World : Type 0} → Text → Text → M World Text → M (Provider World) (Unit {0})
provision_one kind name ensure = on_account ensure >>= note_id kind name

-- The loop over the declarations of a kind.
unfoldable pub provision_each :
    {World A : Type 0}
    → (A → M (Provider World) (Unit {0}))
    → List A
    → M (Provider World) (Unit {0})
provision_each step [] = done tt
provision_each step (a ∷ more) = step a >> provision_each step more

unfoldable pub before : ℕ → Option (Text × Text) → Option (Text × Text)
before c none = none
before c (some (kind, name)) = some (c ∷ kind, name)

-- strings.Cut(k, ":")
unfoldable pub cut_colon : Text → Option (Text × Text)
unfolding before
cut_colon [] = none
cut_colon (c ∷ cs) = let rest = cut_colon cs in if c == b':' then some ([], cs) else before c rest

unfoldable pub record_one : Text → Text → Option (Text × Text) → Manifest → Manifest
record_one now id none m = m
record_one now id (some (kind, name)) m = set kind name id now m

-- `for k, id := range snap { ... manifest.Set(kind, name, id, now) }`
unfoldable pub record_all : Text → Map Text → Manifest → Manifest
record_all now [] m = m
record_all now ((k, id) ∷ snap) m = record_all now snap (record_one now id (cut_colon k) m)

-- The manifest of the file, or a fresh one where it cannot be read.
unfoldable pub prior_manifest : Codec → Option Text → Text → Manifest
prior_manifest c file enc_key = elim (load c file enc_key) [ none ↦ new | some m ↦ m ]

pub record Session : Type 0 where
  pub codec : Codec
  pub derive_key : Text → Option Text
  pub api_token : Text
  pub now : Text

unfoldable pub written_over : Option Text → Option Text → Option Text
written_over file none = file
written_over file (some written) = some written

unfoldable pub persist_with : Session → Map Text → Option Text → Option Text → Option Text
unfolding written_over
persist_with s snap file none = file
persist_with s snap file (some enc_key) =
    written_over file
      (save s.codec (record_all s.now snap (prior_manifest s.codec file enc_key)) enc_key)

-- The file of the manifest after the run.
unfoldable pub persist_resource_state : Session → Map Text → Option Text → Option Text
unfolding persist_with
persist_resource_state s snap file =
    if text_eq s.api_token [] then file else persist_with s snap file (s.derive_key s.api_token)

unfoldable pub persist : {World : Type 0} → Session → Provider World → Provider World
persist s p = record p { state_file = persist_resource_state s p.provisioned p.state_file }

-- `defer p.persistResourceState()`
unfoldable pub deferred :
    {World A : Type 0} → Session → Run (Provider World) A → Run (Provider World) A
deferred s (done a p) = done a (persist s p)
deferred s (failed e p) = failed e (persist s p)

module _ {World : Type 0} (env : Environment) (fs : Migrations) (api : Api World) where
  unfoldable pub zone_step : Option ZoneSettings → M (Provider World) (Unit {0})
  zone_step none = done tt
  zone_step (some z) = on_account (ensure_zone_settings api z)

  unfoldable pub provision_all : Resources → M (Provider World) (Unit {0})
  unfolding zone_step
  provision_all r =
      provision_each (λ d. provision_one (codes "d1") d.name (ensure_d1_database fs api d)) r.d1
      >> provision_each (λ k. provision_one (codes "kv") k (ensure_kv_namespace api k)) r.kv
      >> provision_each
          (λ h. provision_one (codes "hyperdrive") h.name (ensure_hyperdrive env api h))
          r.hyperdrive
      >> provision_each (λ q. provision_one (codes "queue") q (ensure_queue api q)) r.queues
      >> provision_each
          (λ v. provision_one (codes "vectorize") v.name (ensure_vectorize_index api v)) r.vectorize
      >> provision_each (λ g. provision_one (codes "ai_gateway") g (ensure_ai_gateway api g))
          r.ai_gateway
      >> provision_each (λ d. on_account (ensure_dns_record api d)) r.dns
      >> zone_step r.zone_settings

  unfoldable pub provision_resources : Session → Resources → M (Provider World) (Unit {0})
  provision_resources s r p = deferred s (provision_all r p)

  unfoldable pub apply_planned :
      Session → Resources → Result (List PlanItem) → M (Provider World) (List PlanItem)
  apply_planned s r (err e) p = failed e p
  apply_planned s r (ok items) p =
      if has_drift items
      then failed immutable_drift p
      else (provision_resources s r >>= λ u. done items) p

  -- Apply: the dry run, and unless it shows a drift the provisioning.
  unfoldable pub apply : Session → Resources → M (Provider World) (List PlanItem)
  apply s r p = apply_planned s r (plan fs api r p.account) p
