-- ===== src/Cloudflare/Tests/Migrations.antt =====
-- Migrations that are applied once.
use mathlib.Core.Path.{subst}
use next_deploy.Common.{
  ◌≡◌, refl, sym, ap, ◌∙◌, true, false, none, some, List, [], ◌∷◌, inl, inr, arith, map,
  if◌then◌else◌, Bool-cases,
}
use next_deploy.Common.Text.{Text, codes, text_eq, text_eq_iff}
use next_deploy.Common.Map.{get}
use next_deploy.Cloudflare.Api.{Api, done, ok, Row, text, and_then, got, refused, not_found}
use next_deploy.Cloudflare.D1.{
  Migrations, combined, create_table, query_applied_migrations, all_applied,
  parse_applied_migrations, row_name, pending_migrations, is_applied, apply_files, apply_all,
  apply_one, sql_quote, double_quotes,
}
use next_deploy.Cloudflare.D1.Pending.{KeepsRecords, Grows, apply_files-pending_migrations}

-- A directory of one migration, and the table of those applied: every batch but the creation of the
-- table records it.
abbrev first_sql : Migrations
first_sql = record {
  entries = λ dir. some ((codes "0001.sql", false) ∷ []);
  read_file = λ dir f. if text_eq f (codes "0001.sql") then some (codes "SELECT 1;") else none;
}

abbrev row_of : Text → Row
row_of name = some ((codes "name", text name) ∷ [])

abbrev table : Api (List Text)
table = record {
  list_d1 = λ w name. record { items = []; err = none };
  list_kv = λ w. record { items = []; err = none };
  list_hyperdrive = λ w. record { items = []; err = none };
  list_queues = λ w. record { items = []; err = none };
  list_consumers = λ w queue. record { items = []; err = none };
  get_vectorize = λ w name. refused not_found;
  get_gateway = λ w slug. refused not_found;
  list_zones = λ w domain. got [];
  list_dns = λ w zone name. record { items = []; err = none };
  list_zone = λ w zone. record { items = []; err = none };
  select = λ w db sql. some (map row_of w ∷ []);
  exec = λ db sql w. (true, (if text_eq sql create_table then w else codes "0001.sql" ∷ w));
  new_d1 = λ name hint w. (none, w);
  new_kv = λ title w. (none, w);
  new_hyperdrive = λ name origin w. (none, w);
  update_hyperdrive = λ id name origin w. (none, w);
  new_queue = λ name w. (none, w);
  new_vectorize = λ name index w. (none, w);
  new_gateway = λ slug w. (none, w);
  new_dns = λ zone b w. (false, w);
  edit_dns = λ zone id b w. (false, w);
  delete_d1 = λ id w. (none, w);
  delete_kv = λ id w. (none, w);
  delete_hyperdrive = λ id w. (none, w);
  delete_vectorize = λ id w. (none, w);
  delete_queue = λ id w. (none, w);
  delete_gateway = λ id w. (none, w);
  delete_dns = λ zone id w. (none, w);
}

batch_not_creation : text_eq (combined (codes "SELECT 1;") (codes "0001.sql")) create_table ≡ false
unfolding text_eq combined create_table sql_quote double_quotes
batch_not_creation = refl

read_first :
    (f sql : Text)
    → first_sql.read_file (codes "migrations") f ≡ some sql
    → (f ≡ codes "0001.sql") × (sql ≡ codes "SELECT 1;")
read_first f sql h = elim (Bool-cases (text_eq f (codes "0001.sql"))) [
  | inl this ↦ ((text_eq_iff f (codes "0001.sql")).0 this, ground (arith, h, this))
  | inr other ↦ ground (arith, h, other)
]

batch_records :
    (f sql : Text)
    → f ≡ codes "0001.sql"
    → sql ≡ codes "SELECT 1;"
    → text_eq (combined sql f) create_table ≡ false
batch_records f sql named written =
    subst (λ x. text_eq (combined sql x) create_table ≡ false) (sym named)
      (subst (λ x. text_eq (combined x (codes "0001.sql")) create_table ≡ false) (sym written)
        batch_not_creation)

table_keeps : KeepsRecords first_sql table (codes "db") (codes "migrations")
unfolding KeepsRecords Grows query_applied_migrations all_applied parse_applied_migrations row_name
    get text_eq
table_keeps = (
  λ w answered. (
    all_applied
        (map row_of (if text_eq create_table create_table then w else codes "0001.sql" ∷ w) ∷ []),
    refl,
  ),
  λ sql f w before contents read answered.
      let (named, written) = read_first f sql contents in
      rw (batch_records f sql named written) (
        codes "0001.sql" ∷ before,
        ap (λ r. and_then r (λ b. ok (codes "0001.sql" ∷ b))) read,
        λ x i. elim i [
          | inl old ↦ inr old
          | inr (inl this) ↦ inl (this ∙ named)
          | inr (inr other) ↦ elim other [ ]
        ],
      ),
)

migrated :
    apply_files first_sql table (codes "db") (codes "migrations") (codes "0001.sql" ∷ []) []
    ≡ done tt (codes "0001.sql" ∷ [])
unfolding apply_files apply_all apply_one query_applied_migrations all_applied
    parse_applied_migrations pending_migrations is_applied combined create_table sql_quote
    double_quotes text_eq
migrated = refl

apply_files-pending_migrations_example :
    (applied : List Text) × (query_applied_migrations first_sql table
        (codes "db")
        (codes "0001.sql" ∷ [])
      ≡ ok applied)
    × (pending_migrations (codes "0001.sql" ∷ []) applied ≡ [])
apply_files-pending_migrations_example =
    apply_files-pending_migrations first_sql table (codes "db") (codes "migrations")
      (codes "0001.sql") [] tt [] (codes "0001.sql" ∷ []) table_keeps migrated
