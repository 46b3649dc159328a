-- ===== src/Cloudflare/Dns/Bodies.antt =====
-- The body of a declaration's record and the records made of it (buildDNSRecordBody and
-- dnsRecordMatches, cli/internal/serverless/cloudflare_dns.go).
use mathlib.Core.Path.{subst}
use next_deploy.Common.{
  ℕ, ◌≡◌, refl, sym, ap, ◌∙◌, Bool, true, false, ◌&&◌, ◌||◌, Option, none, some, List, [], ◌∷◌,
  ==_iff, In, inl, inr, arith, Bool-cases,
}
use next_deploy.Common.Text.{Text, codes, text_eq, text_eq_iff, to_upper}
use next_deploy.Cloudflare.Api.{DnsRecord, Body, ok}
use next_deploy.Cloudflare.Dns.{
  DnsDecl, effective_ttl, dns_record_fqdn, dns_record_matches, any_matches, declared_body,
  build_dns_record_body, of_kind,
}

-- Whether a record with this body is proxied.
abbrev pub proxied_of : Option Bool → Bool
proxied_of none = false
proxied_of (some b) = b

-- A record made of a body.
unfoldable pub IsOf : Body → DnsRecord → Type 0
IsOf b r =
    (r.kind ≡ b.kind)
    × (r.content ≡ b.content)
    × (r.ttl ≡ b.ttl)
    × (r.proxied ≡ proxied_of b.proxied)

-- What a declaration asks for and its body agree.
unfoldable pub IsBodyOf : DnsDecl → Body → Type 0
IsBodyOf d b =
    (b.name ≡ dns_record_fqdn d.name d.zone)
    × (b.kind ≡ to_upper d.kind)
    × (b.content ≡ d.content)
    × (b.ttl ≡ effective_ttl d.ttl)
    × (proxied_of b.proxied ≡ d.proxied)

pub declared_body-IsBodyOf :
    (d : DnsDecl) (b : Body)
    → declared_body d ≡ ok b
    → (text_eq (to_upper d.kind) (codes "TXT") && d.proxied) ≡ false
    → IsBodyOf d b
unfolding declared_body build_dns_record_body IsBodyOf
declared_body-IsBodyOf d b h plain =
    let kind = to_upper d.kind in
    elim (Bool-cases
      (text_eq kind (codes "A") || text_eq kind (codes "AAAA") || text_eq kind (codes "CNAME"))) [
        | inl address ↦
            let same : record {
              name = dns_record_fqdn d.name d.zone;
              kind = kind;
              content = d.content;
              ttl = effective_ttl d.ttl;
              proxied = some d.proxied;
            }
                ≡ b =
              ground (arith, h, address) in
            subst (IsBodyOf d) same (refl, refl, refl, refl, refl)
        | inr other ↦ elim (Bool-cases (text_eq kind (codes "TXT"))) [
          | inl text ↦
              let same : record {
                name = dns_record_fqdn d.name d.zone;
                kind = kind;
                content = d.content;
                ttl = effective_ttl d.ttl;
                proxied = none;
              }
                  ≡ b =
                ground (arith, h, other, text) in
              let bare : false ≡ d.proxied = ground (arith, plain, text) in
              subst (IsBodyOf d) same (refl, refl, refl, refl, bare)
          | inr unknown ↦ ground (arith, h, other, unknown)
        ]
      ]

matches_lem :
    (content : Text) (ttl : ℕ) (proxied : Bool) (r : DnsRecord)
    → (r.content ≡ content) × (r.ttl ≡ ttl) × (r.proxied ≡ proxied)
    → dns_record_matches content ttl proxied r ≡ true
unfolding dns_record_matches
matches_lem content ttl proxied r h =
    ground (arith, h, text_eq_iff r.content content, ==_iff r.ttl ttl)

pub any_matches-In :
    (content : Text) (ttl : ℕ) (proxied : Bool) (r : DnsRecord) (rs : List DnsRecord)
    → In r rs
    → (r.content ≡ content) × (r.ttl ≡ ttl) × (r.proxied ≡ proxied)
    → any_matches content ttl proxied rs ≡ true
unfolding any_matches
any_matches-In content ttl proxied r [] i h = elim i [ ]
any_matches-In content ttl proxied r (q ∷ rs) (inl same) h =
    let found =
      subst (λ x. dns_record_matches content ttl proxied x ≡ true) same
        (matches_lem content ttl proxied r h) in
    ground (arith, found)
any_matches-In content ttl proxied r (q ∷ rs) (inr i) h =
    let ih = any_matches-In content ttl proxied r rs i h in ground (arith, ih)

pub In-of_kind_back :
    (kind : Text) (r : DnsRecord) (rs : List DnsRecord)
    → In r rs
    → r.kind ≡ kind
    → In r (of_kind kind rs)
unfolding of_kind
In-of_kind_back kind r [] i h = elim i [ ]
In-of_kind_back kind r (q ∷ rs) (inl same) h =
    let here : text_eq q.kind kind ≡ true =
      (text_eq_iff q.kind kind).1 (sym (ap (λ (x : DnsRecord). x.kind) same) ∙ h) in
    rw here (inl same)
In-of_kind_back kind r (q ∷ rs) (inr i) h =
    let ih = In-of_kind_back kind r rs i h in
    elim (Bool-cases (text_eq q.kind kind)) [
      | inl here ↦ rw here (inr ih)
      | inr other ↦ rw other ih
    ]
