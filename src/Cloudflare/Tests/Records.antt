-- ===== src/Cloudflare/Tests/Records.antt =====
-- DNS records and SQL, deployed and torn down.
use mathlib.Core.Path.{subst}
use next_deploy.Common.{
  ap, Bool-cases, ◌≡◌, refl, true, false, none, some, [], ◌∷◌, ◌++◌, In, inl, inr, arith,
}
use next_deploy.Common.Text.{codes, text_eq, has_prefix, has_suffix, to_upper}
use next_deploy.Cloudflare.Api.{Api, DnsRecord, done, ok}
use next_deploy.Cloudflare.D1.{sql_quote}
use next_deploy.Cloudflare.D1.Quoting.{read_literal, read_literal-sql_quote}
use next_deploy.Cloudflare.Dns.{
  ensure_dns_record, declared_body, dns_record_fqdn, build_dns_record_body, effective_ttl,
  get_zone_id, find_dns_records, all_of_kind, of_kind, reconcile, edit_or_create, any_matches,
  dns_record_matches, first_zone,
}
use next_deploy.Cloudflare.Plan.{plan_dns_record}
use next_deploy.Cloudflare.Plan.Followed.{Agrees}
use next_deploy.Cloudflare.Plan.Dns.{ensure_dns_record-plan_dns_record, add_record, edit_record}
use next_deploy.Cloudflare.Teardown.{teardown_declared_dns}
use next_deploy.Cloudflare.Teardown.Siblings.{
  IsDeclared, Keeps, AllKeep, teardown_declared_dns-AllKeep,
}
use next_deploy.Cloudflare.Tests.Account.{
  removed, Records, account, made, www, www_body, verification_record,
}

www_declared : declared_body www ≡ ok www_body
unfolding declared_body build_dns_record_body dns_record_fqdn text_eq has_prefix has_suffix
    effective_ttl to_upper
www_declared = refl

abbrev before : Records
before = verification_record ∷ []

deployed : ensure_dns_record account www before ≡ done tt (made www_body ∷ before)
unfolding ensure_dns_record declared_body build_dns_record_body dns_record_fqdn text_eq has_prefix
    has_suffix effective_ttl to_upper get_zone_id first_zone find_dns_records all_of_kind of_kind
    reconcile any_matches edit_or_create
deployed = refl

ensure_dns_record-plan_dns_record_example :
    Agrees
      (some (add_record account www www_body before))
      (some (edit_record account www www_body before))
      before
      (ensure_dns_record account www before)
      (plan_dns_record account before www)
ensure_dns_record-plan_dns_record_example =
    ensure_dns_record-plan_dns_record account before www www_body www_declared

apart : text_eq verification_record.id (codes "r-1") ≡ false
unfolding text_eq
apart = refl

-- The verification record is among the records.
HasSibling : Records → Type 0
HasSibling w = In verification_record w

removed_sibling : (w : Records) → HasSibling w → HasSibling (removed (codes "r-1") w)
unfolding HasSibling
removed_sibling [] i = i
removed_sibling (q ∷ w) (inl same) =
    let other : text_eq q.id (codes "r-1") ≡ false =
      subst (λ (x : DnsRecord). text_eq x.id (codes "r-1") ≡ false) same apart in
    rw other (inl same)
removed_sibling (q ∷ w) (inr i) = elim (Bool-cases (text_eq q.id (codes "r-1"))) [
  | inl this ↦ rw this i
  | inr other ↦ rw other (inr (removed_sibling w i))
]

-- The account with a listing of both records.
abbrev listed : Api Records
listed = record account {
  list_dns = λ w zone name. record { items = made www_body ∷ verification_record ∷ []; err = none };
}

unmatched : dns_record_matches (codes "app.example.net") 1 true verification_record ≡ false
unfolding dns_record_matches text_eq
unmatched = refl

matched_made :
    (r : DnsRecord)
    → In r (made www_body ∷ verification_record ∷ [])
    → dns_record_matches (codes "app.example.net") 1 true r ≡ true
    → r.id ≡ codes "r-1"
matched_made r (inl same) h = ap (λ (x : DnsRecord). x.id) same
matched_made r (inr (inl same)) h =
    let there = subst (λ x. dns_record_matches (codes "app.example.net") 1 true x ≡ true) same h in
    ground (arith, there, unmatched)
matched_made r (inr (inr other)) h = elim other [ ]

www-Keeps : Keeps listed HasSibling www
unfolding Keeps IsDeclared effective_ttl
www-Keeps zone_id r w ((v, i), kind, matched) p =
    rw (matched_made r i matched) (removed_sibling w p)

teardown_declared_dns-AllKeep_example :
    HasSibling (teardown_declared_dns listed (www ∷ []) (made www_body ∷ before)).1
unfolding AllKeep HasSibling
teardown_declared_dns-AllKeep_example =
    teardown_declared_dns-AllKeep listed HasSibling (www ∷ []) (made www_body ∷ before)
      (www-Keeps, tt) (inr (inl refl))

read_literal-sql_quote_example :
    read_literal (sql_quote (codes "o'clock") ++ codes ", 1)")
    ≡ some (codes "o'clock", codes ", 1)")
read_literal-sql_quote_example =
    read_literal-sql_quote (codes "o'clock") (codes ", 1)") (λ e. ground (arith, e))
