-- ===== src/Cloudflare/Teardown.antt =====
-- Tearing down (cli/internal/serverless/cloudflare_teardown.go): the resources of the manifest and the
-- declared DNS records. A state file that cannot be removed or written stays as it was; the removal
-- is taken to succeed.
pub mod Survivors
pub mod Siblings
use next_deploy.Common.{
  ℕ, Bool, true, false, Option, none, some, List, [], ◌∷◌, ◌++◌, ◌||◌, if◌then◌else◌,
}
use next_deploy.Common.Text.{Text, codes, text_eq, to_upper}
use next_deploy.Manifest.{Resource, Manifest, new, set, key, list, load, save}
use next_deploy.Cloudflare.Api.{Api, ApiError, not_found, other_error, DnsRecord, Result, ok, err}
use next_deploy.Cloudflare.Dns.{
  DnsDecl, effective_ttl, dns_record_fqdn, dns_record_matches, get_zone_id, find_dns_records,
}
use next_deploy.Cloudflare.Provision.{Session, written_over}

-- What a teardown leaves: the names that failed, in order, and what they are.
pub record Torn (World : Type 0) : Type 0 where
  pub failed : List Text
  pub survivors : Manifest
  pub account : World

-- `err != nil && !isCFNotFound(err)`
unfoldable pub is_failure : Option ApiError → Bool
is_failure none = false
is_failure (some not_found) = false
is_failure (some other_error) = true

unfoldable pub keep_failed : {World : Type 0} → Resource → Torn World → Torn World
keep_failed r t = record {
  failed = t.failed ++ key r.kind r.name ∷ [];
  survivors = set r.kind r.name r.id r.updated_at t.survivors;
  account = t.account;
}

module _ {World : Type 0} (api : Api World) where
  -- An unknown kind is an error.
  unfoldable pub delete_provisioned_resource : Text → Text → World → Option ApiError × World
  delete_provisioned_resource kind id w =
      if text_eq kind (codes "d1")
      then api.delete_d1 id w
      else if text_eq kind (codes "kv")
      then api.delete_kv id w
      else if text_eq kind (codes "hyperdrive")
      then api.delete_hyperdrive id w
      else if text_eq kind (codes "vectorize")
      then api.delete_vectorize id w
      else if text_eq kind (codes "queue")
      then api.delete_queue id w
      else if text_eq kind (codes "ai_gateway")
      then api.delete_gateway id w
      else (some other_error, w)

  -- The loop over the records.
  unfoldable pub teardown_records : List Resource → Torn World → Torn World
  teardown_records [] t = t
  teardown_records (r ∷ rs) t =
      let answer = delete_provisioned_resource r.kind r.id t.account in
      let t' = record t { account = answer.1 } in
      teardown_records rs (if is_failure answer.0 then keep_failed r t' else t')

  unfoldable pub teardown_manifest : World → Manifest → Torn World
  teardown_manifest w m =
      teardown_records (list m) (record { failed = []; survivors = new; account = w })

  -- The file after a teardown: removed, or with the survivors.
  unfoldable pub remaining_file : Session → Text → Option Text → Manifest → Option Text
  remaining_file s enc_key file survivors = elim survivors.resources [
    | [] ↦ none
    | k ∷ more ↦ written_over file (save s.codec survivors enc_key)
  ]

  torn_down :
      Session → Text → Option Text → World → Option Manifest → List Text × Option Text × World
  torn_down s enc_key file w none = ([], file, w)
  torn_down s enc_key file w (some m) =
      let t = teardown_manifest w m in
      elim (list m) [
        | [] ↦ ([], file, w)
        | r ∷ rs ↦ (t.failed, remaining_file s enc_key file t.survivors, t.account)
      ]

  unfoldable pub teardown_provisioned_resources :
      Session → Option Text → World → List Text × Option Text × World
  unfolding torn_down
  teardown_provisioned_resources s file w =
      if text_eq s.api_token [] then ([], file, w) else elim (s.derive_key s.api_token) [
        | none ↦ ([], file, w)
        | some enc_key ↦ torn_down s enc_key file w (load s.codec file enc_key)
      ]

  -- The loop over the records of a declaration: a record of another value is passed over.
  unfoldable pub delete_matching :
      Text → DnsDecl → Text → List DnsRecord → World → List Text × World
  delete_matching zone_id d name [] w = ([], w)
  delete_matching zone_id d name (r ∷ rs) w =
      let answer = api.delete_dns zone_id r.id w in
      let rest = delete_matching zone_id d name rs answer.1 in
      let passed = delete_matching zone_id d name rs w in
      if dns_record_matches d.content (effective_ttl d.ttl) d.proxied r
      then ((if is_failure answer.0 then name ∷ rest.0 else rest.0), rest.1)
      else passed

  unfoldable label : Text → Text → Text
  label kind name = codes "dns " ++ (kind ++ (codes "/" ++ name))

  unfoldable in_listing : DnsDecl → Text → World → Result (List DnsRecord) → List Text × World
  in_listing d zone_id w (err e) = (label (to_upper d.kind) (dns_record_fqdn d.name d.zone) ∷ [], w)
  in_listing d zone_id w (ok records) =
      delete_matching zone_id d (label (to_upper d.kind) (dns_record_fqdn d.name d.zone)) records w

  unfoldable in_zone : DnsDecl → World → Result Text → List Text × World
  in_zone d w (err e) = (label d.kind d.name ∷ [], w)
  in_zone d w (ok zone_id) =
      in_listing d zone_id w
        (find_dns_records api zone_id (dns_record_fqdn d.name d.zone) (to_upper d.kind) w)

  unfoldable pub teardown_dns_record : DnsDecl → World → List Text × World
  unfolding in_zone in_listing label
  teardown_dns_record d w = in_zone d w (get_zone_id api d.zone w)

  unfoldable pub teardown_declared_dns : List DnsDecl → World → List Text × World
  teardown_declared_dns [] w = ([], w)
  teardown_declared_dns (d ∷ ds) w =
      let one = teardown_dns_record d w in
      let rest = teardown_declared_dns ds one.1 in
      let skipped = teardown_declared_dns ds w in
      if text_eq d.zone [] || text_eq d.name [] || text_eq d.kind []
      then skipped
      else (one.0 ++ rest.0, rest.1)
