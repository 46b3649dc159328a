-- ===== src/Cloudflare/Zone.antt =====
-- Zone settings (cli/internal/serverless/cloudflare_zone.go): the TTL of every record of a zone is
-- lowered to a value.
use next_deploy.Common.{ℕ, Bool, ◌||◌, Option, none, some, List, [], ◌∷◌, ◌==◌, leb, if◌then◌else◌}
use next_deploy.Common.Int.{ℤ, pos, negsuc}
use next_deploy.Common.Text.{Text, text_eq}
use next_deploy.Cloudflare.Api.{
  Api, ApiError, DnsRecord, done, failed, api_error, missing_field, bad_min_ttl, ok, err, M, ◌>>=◌,
  ◌>>◌, lift, write,
}
use next_deploy.Cloudflare.Dns.{build_dns_record_body, get_zone_id}
use next_deploy.Cloudflare.Plan.{ZoneSettings}

-- `r.TTL <= target || r.TTL == 1`
unfoldable pub is_low : ℕ → DnsRecord → Bool
is_low target r = leb r.ttl target || r.ttl == 1

module _ {World : Type 0} (api : Api World) where
  -- A record of a type that has no body is skipped.
  unfoldable pub lower_record : Text → ℕ → DnsRecord → M World (Unit {0})
  lower_record zone_id target r =
      if is_low target r
      then done tt
      else elim (build_dns_record_body r.name r.kind r.content target r.proxied) [
        | err e ↦ done tt
        | ok body ↦ write (api.edit_dns zone_id r.id body)
      ]

  -- The loop over the listing, whose error is seen after its items.
  unfoldable pub lower_records : Text → ℕ → Option ApiError → List DnsRecord → M World (Unit {0})
  lower_records zone_id target none [] = done tt
  lower_records zone_id target (some e) [] = failed (api_error e)
  lower_records zone_id target ending (r ∷ rs) =
      lower_record zone_id target r >> lower_records zone_id target ending rs

  lower_zone : Text → ℕ → Text → M World (Unit {0})
  lower_zone zone target zone_id w =
      lower_records zone_id target (api.list_zone w zone_id).err (api.list_zone w zone_id).items w

  lower_to : Text → ℤ → M World (Unit {0})
  lower_to zone (negsuc n) = done tt
  lower_to zone (pos n) =
      if n == 0
      then done tt
      else if n == 1
      then failed bad_min_ttl
      else lift (get_zone_id api zone) >>= lower_zone zone n

  unfoldable pub ensure_zone_settings : ZoneSettings → M World (Unit {0})
  unfolding lower_to lower_zone
  ensure_zone_settings s =
      if text_eq s.zone [] then failed missing_field else lower_to s.zone s.min_ttl
