-- ===== src/Cloudflare/Teardown/Siblings.antt =====
-- Which records of a zone a teardown touches (teardownDeclaredDNS,
-- cli/internal/serverless/cloudflare_teardown.go).
use mathlib.Core.Path.{subst}
use next_deploy.Common.{
  ◌≡◌, ◌||◌, true, List, [], ◌∷◌, In, refl, sym, ap, Option, none, some, inl, inr, arith,
  Bool-cases,
}
use next_deploy.Common.Text.{Text, text_eq, to_upper}
use next_deploy.Cloudflare.Api.{Api, ApiError, DnsRecord, Result, ok, err}
use next_deploy.Cloudflare.Dns.{
  DnsDecl, effective_ttl, dns_record_fqdn, dns_record_matches, get_zone_id, find_dns_records,
  of_kind, all_of_kind,
}
use next_deploy.Cloudflare.Teardown.{
  delete_matching, in_zone, in_listing, label, teardown_dns_record, teardown_declared_dns,
}

In-of_kind :
    (kind : Text) (r : DnsRecord) (rs : List DnsRecord)
    → In r (of_kind kind rs)
    → In r rs × (text_eq r.kind kind ≡ true)
unfolding of_kind
In-of_kind kind r [] i = elim i [ ]
In-of_kind kind r (q ∷ rs) i = elim (Bool-cases (text_eq q.kind kind)) [
  | inl same ↦
      ground (arith, i, same, In-of_kind kind r rs, ap (λ (x : DnsRecord). text_eq x.kind kind))
  | inr other ↦ ground (arith, i, other, In-of_kind kind r rs)
]

In-all_of_kind :
    (kind : Text) (r : DnsRecord) (ending : Option ApiError) (items found : List DnsRecord)
    → all_of_kind kind ending items ≡ ok found
    → In r found
    → In r items × (text_eq r.kind kind ≡ true)
unfolding all_of_kind
In-all_of_kind kind r none items found h i =
    let same : of_kind kind items ≡ found = ground (arith, h) in
    In-of_kind kind r items (subst (In r) (sym same) i)
In-all_of_kind kind r (some e) items found h i = ground (arith, h)

module _ {World : Type 0} (api : Api World) (P : World → Type 0) where
  -- The record was listed under the declared name and is of the declared type, content, TTL and
  -- proxying.
  unfoldable pub IsDeclared : DnsDecl → Text → DnsRecord → Type 0
  IsDeclared d zone_id r =
      ((v : World) × In r (api.list_dns v zone_id (dns_record_fqdn d.name d.zone)).items)
      × (text_eq r.kind (to_upper d.kind) ≡ true)
      × (dns_record_matches d.content (effective_ttl d.ttl) d.proxied r ≡ true)

  -- Deleting such a record keeps `P`.
  unfoldable pub Keeps : DnsDecl → Type 0
  Keeps d =
      (zone_id : Text) (r : DnsRecord) (w : World)
      → IsDeclared d zone_id r
      → P w
      → P (api.delete_dns zone_id r.id w).1

  delete_matching-Keeps :
      (zone_id : Text) (d : DnsDecl) (name : Text) (v : World) (rs : List DnsRecord) (w : World)
      → Keeps d
      → ((r : DnsRecord)
          → In r rs
          → In r (api.list_dns v zone_id (dns_record_fqdn d.name d.zone)).items
            × (text_eq r.kind (to_upper d.kind) ≡ true))
      → P w
      → P (delete_matching api zone_id d name rs w).1
  unfolding delete_matching Keeps IsDeclared
  delete_matching-Keeps zone_id d name v [] w keeps listed p = p
  delete_matching-Keeps zone_id d name v (r ∷ rs) w keeps listed p =
      let (there, kind) = listed r (inl refl) in
      elim (Bool-cases (dns_record_matches d.content (effective_ttl d.ttl) d.proxied r)) [
        | inl matched ↦ rw matched (
            delete_matching-Keeps zone_id d name v rs (api.delete_dns zone_id r.id w).1 keeps
              (λ q i. listed q (inr i)) (keeps zone_id r w ((v, there), kind, matched) p))
        | inr other ↦
            rw other (delete_matching-Keeps zone_id d name v rs w keeps (λ q i. listed q (inr i)) p)
      ]

  in_listing-Keeps :
      (d : DnsDecl) (zone_id : Text) (w : World) (records : Result (List DnsRecord))
      → find_dns_records api zone_id (dns_record_fqdn d.name d.zone) (to_upper d.kind) w ≡ records
      → Keeps d
      → P w
      → P (in_listing api d zone_id w records).1
  unfolding in_listing find_dns_records
  in_listing-Keeps d zone_id w (err e) h keeps p = p
  in_listing-Keeps d zone_id w (ok records) h keeps p =
      let l = api.list_dns w zone_id (dns_record_fqdn d.name d.zone) in
      delete_matching-Keeps zone_id d (label api (to_upper d.kind) (dns_record_fqdn d.name d.zone))
        w records w keeps (λ r i. In-all_of_kind (to_upper d.kind) r l.err l.items records h i) p

  in_zone-Keeps :
      (d : DnsDecl) (w : World) (zone : Result Text) → Keeps d → P w → P (in_zone api d w zone).1
  unfolding in_zone
  in_zone-Keeps d w (err e) keeps p = p
  in_zone-Keeps d w (ok zone_id) keeps p = in_listing-Keeps d zone_id w _ refl keeps p

  -- Every declaration of a list keeps `P`.
  unfoldable pub AllKeep : List DnsDecl → Type 0
  AllKeep [] = Unit
  AllKeep (d ∷ ds) = Keeps d × AllKeep ds

  -- A teardown of the declared records only deletes records that were listed under the name of a
  -- declaration and have its type, content, TTL and proxying: what the deletion of those keeps, the
  -- teardown keeps, so a sibling record is never touched.
  pub teardown_declared_dns-AllKeep :
      (ds : List DnsDecl) (w : World) → AllKeep ds → P w → P (teardown_declared_dns api ds w).1
  unfolding teardown_declared_dns teardown_dns_record AllKeep
  teardown_declared_dns-AllKeep [] w keeps p = p
  teardown_declared_dns-AllKeep (d ∷ ds) w keeps p =
      elim (Bool-cases (text_eq d.zone [] || text_eq d.name [] || text_eq d.kind [])) [
        | inl missing ↦ rw missing (teardown_declared_dns-AllKeep ds w keeps.1 p)
        | inr whole ↦ rw whole (
            teardown_declared_dns-AllKeep ds (teardown_dns_record api d w).1 keeps.1
              (in_zone-Keeps d w (get_zone_id api d.zone w) keeps.0 p))
      ]
