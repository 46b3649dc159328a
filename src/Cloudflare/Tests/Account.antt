-- ===== src/Cloudflare/Tests/Account.antt =====
-- An account with one zone, of which the records are the state, and with one resource of each other
-- kind.
use next_deploy.Common.{String, true, false, none, some, List, [], ◌∷◌, if◌then◌else◌}
use next_deploy.Common.Int.{pos}
use next_deploy.Common.Text.{Text, codes, text_eq}
use next_deploy.Cloudflare.Api.{
  Api, not_found, other_error, Named, Listing, got, refused, cosine, DnsRecord, Body,
}
use next_deploy.Cloudflare.Hyperdrive.{Environment}
use next_deploy.Cloudflare.D1.{Migrations}
use next_deploy.Cloudflare.Dns.{DnsDecl}
use next_deploy.Cloudflare.Dns.Bodies.{proxied_of}

abbrev pub Records : Type 0
Records = List DnsRecord

abbrev one : String → Listing Named
one name = record { items = record { name = codes name; id = codes "id-1" } ∷ []; err = none }

abbrev pub made : Body → DnsRecord
made b = record {
  id = codes "r-1";
  name = b.name;
  kind = b.kind;
  content = b.content;
  ttl = b.ttl;
  proxied = proxied_of b.proxied;
}

abbrev pub removed : Text → Records → Records
removed id [] = []
removed id (r ∷ rs) = if text_eq r.id id then rs else r ∷ removed id rs

abbrev pub account : Api Records
account = record {
  list_d1 = λ w name. one "main";
  list_kv = λ w. one "cache";
  list_hyperdrive = λ w. one "pool";
  list_queues = λ w. one "jobs";
  list_consumers = λ w queue. one "worker";
  get_vectorize = λ w name.
      if text_eq name (codes "docs")
      then got (record { dimensions = 768; metric = cosine })
      else refused not_found;
  get_gateway = λ w slug. refused not_found;
  list_zones = λ w domain. got (codes "zone-1" ∷ []);
  list_dns = λ w zone name. record { items = w; err = none };
  list_zone = λ w zone. record { items = w; err = none };
  select = λ w db sql. none;
  exec = λ db sql w. (false, w);
  new_d1 = λ name hint w. (some (codes "id-2"), w);
  new_kv = λ title w. (some (codes "id-2"), w);
  new_hyperdrive = λ name origin w. (some (codes "id-2"), w);
  update_hyperdrive = λ id name origin w. (some id, w);
  new_queue = λ name w. (none, w);
  new_vectorize = λ name index w. (some name, w);
  new_gateway = λ slug w. (some slug, w);
  new_dns = λ zone b w. (true, made b ∷ w);
  edit_dns = λ zone id b w. (true, made b ∷ removed id w);
  delete_d1 = λ id w. (none, w);
  delete_kv = λ id w. (some other_error, w);
  delete_hyperdrive = λ id w. (none, w);
  delete_vectorize = λ id w. (none, w);
  delete_queue = λ id w. (some not_found, w);
  delete_gateway = λ id w. (none, w);
  delete_dns = λ zone id w. (none, removed id w);
}

abbrev pub no_files : Migrations
no_files = record { entries = λ dir. none; read_file = λ dir f. none }

abbrev pub no_environment : Environment
no_environment = record { getenv = λ k. []; parse_url = λ t. none; atoi = λ t. none }

abbrev pub www : DnsDecl
www = record {
  zone = codes "example.com";
  name = codes "www";
  kind = codes "cname";
  content = codes "app.example.net";
  ttl = pos 0;
  proxied = true;
}

-- The record that another tool keeps in the zone.
abbrev pub verification_record : DnsRecord
verification_record = record {
  id = codes "r-0";
  name = codes "www.example.com";
  kind = codes "TXT";
  content = codes "site=1";
  ttl = 300;
  proxied = false;
}

abbrev pub www_body : Body
www_body = record {
  name = codes "www.example.com";
  kind = codes "CNAME";
  content = codes "app.example.net";
  ttl = 1;
  proxied = some true;
}
