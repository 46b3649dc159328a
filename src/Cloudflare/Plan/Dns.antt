-- ===== src/Cloudflare/Plan/Dns.antt =====
-- What a deploy does about a DNS record after a dry run on the same account: planDNSRecord against
-- ensureDNSRecord (cli/internal/serverless).
use next_deploy.Common.{◌≡◌, refl, some, List, [], ◌∷◌, Bool-cases, inl, inr}
use next_deploy.Common.Text.{Text, to_upper}
use next_deploy.Cloudflare.Api.{
  Api, DnsRecord, Body, done, Result, ok, M, ◌>>=◌, lift, write, Result-cases, lift_ok,
}
use next_deploy.Cloudflare.Dns.{
  DnsDecl, effective_ttl, dns_record_fqdn, is_single_valued, any_matches, declared_body,
  get_zone_id, find_dns_records, is_missing, ensure_dns_record, reconcile, edit_or_create,
}
use next_deploy.Cloudflare.Plan.{plan_dns_record, dns_action, dns_item}
use next_deploy.Cloudflare.Plan.Followed.{Agrees, Follows}

module _ {World : Type 0} (api : Api World) where
  pub add_record : DnsDecl → Body → M World (Unit {0})
  add_record d body = lift (get_zone_id api d.zone) >>= λ zone_id. write (api.new_dns zone_id body)

  edit_sole : Text → Body → List DnsRecord → M World (Unit {0})
  edit_sole zone_id body (r ∷ []) = write (api.edit_dns zone_id r.id body)
  edit_sole zone_id body _ = done tt

  -- The sole record of the name and type is edited.
  pub edit_record : DnsDecl → Body → M World (Unit {0})
  edit_record d body = do
    zone_id ← lift (get_zone_id api d.zone)
    existing ← lift (find_dns_records api zone_id (dns_record_fqdn d.name d.zone) (to_upper d.kind))
    edit_sole zone_id body existing

  records_agree :
      (zone_id : Text) (d : DnsDecl) (body : Body) (w : World) (existing : List DnsRecord)
      → Agrees
          (some (write (api.new_dns zone_id body) w))
          (some (edit_sole zone_id body existing w))
          w
          (reconcile api zone_id d body existing w)
          (ok (dns_item d existing))
  unfolding any_matches Follows reconcile edit_or_create edit_sole dns_action dns_item
  records_agree zone_id d body w [] = refl
  records_agree zone_id d body w (r ∷ []) =
      elim (Bool-cases (any_matches d.content (effective_ttl d.ttl) d.proxied (r ∷ []))) [
        | inl matched ↦ rw matched (tt, refl)
        | inr unmatched ↦ rw unmatched (elim (Bool-cases (is_single_valued (to_upper d.kind))) [
          | inl single ↦ rw single refl
          | inr several ↦ rw several refl
        ])
      ]
  records_agree zone_id d body w (r ∷ s ∷ rs) =
      elim (Bool-cases (any_matches d.content (effective_ttl d.ttl) d.proxied (r ∷ s ∷ rs))) [
        | inl matched ↦ rw matched (tt, refl)
        | inr unmatched ↦ rw unmatched refl
      ]

  -- What a dry run says of a DNS record is what a deploy on the same account does: on create the call
  -- that creates it, on update the call that edits the sole record, on no-op nothing. The record is
  -- of a type that has a body; a dry run that ended in an error says nothing.
  pub ensure_dns_record-plan_dns_record :
      (w : World) (d : DnsDecl) (body : Body)
      → declared_body d ≡ ok body
      → Agrees
          (some (add_record d body w))
          (some (edit_record d body w))
          w
          (ensure_dns_record api d w)
          (plan_dns_record api w d)
  unfolding ensure_dns_record plan_dns_record add_record edit_record
  ensure_dns_record-plan_dns_record w d body built =
      let look : Text → World → Result (List DnsRecord) =
        λ zone_id. find_dns_records api zone_id (dns_record_fqdn d.name d.zone) (to_upper d.kind) in
      elim (Bool-cases (is_missing d)) [
        | inl missing ↦ rw missing tt
        | inr whole ↦
            rw (whole, built)
              (elim (Result-cases (get_zone_id api d.zone w)) [
                | inr lost ↦ rw lost.1 tt
                | inl zone ↦
                    rw (zone.1, lift_ok (get_zone_id api d.zone) w zone.0 zone.1)
                      (elim (Result-cases (look zone.0 w)) [
                        | inl found ↦
                            rw (found.1, lift_ok (look zone.0) w found.0 found.1)
                              (records_agree zone.0 d body w found.0)
                        | inr lost ↦ rw lost.1 tt
                      ])
              ])
      ]
