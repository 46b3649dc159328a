-- ===== src/Cloudflare/Dns.antt =====
-- DNS records (cli/internal/serverless/cloudflare_dns.go) and the lookup of a zone (getZoneID of
-- cloudflare.go).
pub mod Bodies
use next_deploy.Common.{
  ℕ, Bool, true, false, ◌&&◌, ◌||◌, not, Option, none, some, List, [], ◌∷◌, ◌++◌, ◌==◌,
  if◌then◌else◌,
}
use next_deploy.Common.Int.{ℤ, pos, negsuc}
use next_deploy.Common.Text.{Text, codes, text_eq, to_upper, has_suffix}
use next_deploy.Cloudflare.Api.{
  Api, ApiError, Answer, got, refused, Listing, DnsRecord, Body, Error, Run, done, failed,
  api_error, no_zone, missing_field, unsupported_type, Result, ok, err, and_then, M, ◌>>=◌,
  continue, lift, write,
}

pub record DnsDecl : Type 0 where
  pub zone : Text
  pub name : Text
  pub kind : Text
  pub content : Text
  pub ttl : ℤ
  pub proxied : Bool

-- `if ttl <= 0 { ttl = 1 }`
unfoldable pub effective_ttl : ℤ → ℕ
effective_ttl (pos n) = if n == 0 then 1 else n
effective_ttl (negsuc n) = 1

unfoldable pub dns_record_fqdn : Text → Text → Text
dns_record_fqdn name zone =
    if text_eq name (codes "@")
    then zone
    else if text_eq name (codes "*")
    then codes "*." ++ zone
    else if text_eq name zone || has_suffix name (codes "." ++ zone)
    then name
    else name ++ (codes "." ++ zone)

unfoldable pub is_single_valued : Text → Bool
is_single_valued kind = text_eq kind (codes "CNAME")

unfoldable pub dns_record_matches : Text → ℕ → Bool → DnsRecord → Bool
dns_record_matches content ttl proxied r =
    text_eq r.content content && r.ttl == ttl && (if r.proxied then proxied else not proxied)

unfoldable pub any_matches : Text → ℕ → Bool → List DnsRecord → Bool
any_matches content ttl proxied [] = false
any_matches content ttl proxied (r ∷ rs) =
    dns_record_matches content ttl proxied r || any_matches content ttl proxied rs

unfoldable pub build_dns_record_body : Text → Text → Text → ℕ → Bool → Result Body
build_dns_record_body name kind content ttl proxied =
    if text_eq kind (codes "A") || text_eq kind (codes "AAAA") || text_eq kind (codes "CNAME")
    then ok
        (record { name = name; kind = kind; content = content; ttl = ttl; proxied = some proxied })
    else if text_eq kind (codes "TXT")
    then ok (record { name = name; kind = kind; content = content; ttl = ttl; proxied = none })
    else err unsupported_type

unfoldable pub of_kind : Text → List DnsRecord → List DnsRecord
of_kind kind [] = []
of_kind kind (r ∷ rs) = let rest = of_kind kind rs in if text_eq r.kind kind then r ∷ rest else rest

-- All records of a type, unless the listing ended in an error.
unfoldable pub all_of_kind : Text → Option ApiError → List DnsRecord → Result (List DnsRecord)
all_of_kind kind none items = ok (of_kind kind items)
all_of_kind kind (some e) items = err (api_error e)

unfoldable pub first_zone : Answer (List Text) → Result Text
first_zone (refused e) = err (api_error e)
first_zone (got []) = err no_zone
first_zone (got (z ∷ zs)) = ok z

abbrev pub is_missing : DnsDecl → Bool
is_missing d = text_eq d.zone [] || text_eq d.name [] || text_eq d.kind [] || text_eq d.content []

-- The body of a declaration's record.
unfoldable pub declared_body : DnsDecl → Result Body
declared_body d =
    build_dns_record_body (dns_record_fqdn d.name d.zone) (to_upper d.kind) d.content
      (effective_ttl d.ttl) d.proxied

module _ {World : Type 0} (api : Api World) where
  unfoldable pub get_zone_id : Text → World → Result Text
  unfolding first_zone
  get_zone_id domain w = first_zone (api.list_zones w domain)

  unfoldable pub find_dns_records : Text → Text → Text → World → Result (List DnsRecord)
  unfolding all_of_kind
  find_dns_records zone_id fqdn kind w =
      all_of_kind kind (api.list_dns w zone_id fqdn).err (api.list_dns w zone_id fqdn).items

  -- A sole single-valued record is edited, all else is created.
  unfoldable pub edit_or_create : Text → Text → Body → List DnsRecord → M World (Unit {0})
  edit_or_create zone_id kind body (r ∷ []) =
      if is_single_valued kind
      then write (api.edit_dns zone_id r.id body)
      else write (api.new_dns zone_id body)
  edit_or_create zone_id kind body _ = write (api.new_dns zone_id body)

  unfoldable pub reconcile : Text → DnsDecl → Body → List DnsRecord → M World (Unit {0})
  reconcile zone_id d body existing w =
      if any_matches d.content (effective_ttl d.ttl) d.proxied existing
      then done tt w
      else edit_or_create zone_id (to_upper d.kind) body existing w

  unfoldable pub ensure_dns_record : DnsDecl → M World (Unit {0})
  ensure_dns_record d w =
      if is_missing d
      then failed missing_field w
      else (do
        zone_id ← lift (get_zone_id d.zone)
        body ← lift (λ _. declared_body d)
        existing ← lift (find_dns_records zone_id (dns_record_fqdn d.name d.zone) (to_upper d.kind))
        reconcile zone_id d body existing)
          w
