-- ===== src/Cloudflare/D1.antt =====
-- D1 databases and their migrations (cli/internal/serverless/cloudflare_d1.go). The directory of
-- migrations is a parameter; a migration is named by its file, of which sort.Slice sees the base.
pub mod Quoting
pub mod Pending
use next_deploy.Common.{
  ℕ, Bool, true, false, not, Option, none, some, List, [], ◌∷◌, ◌++◌, ◌==◌, if◌then◌else◌,
}
use next_deploy.Common.Text.{Text, codes, text_eq, to_lower}
use next_deploy.Common.Map.{Map, get}
use next_deploy.Common.Sort.{sort}
use next_deploy.Cloudflare.Api.{
  Api, Cell, text, other, Row, Error, Run, done, failed, api_error, other_error, no_migrations_dir,
  unreadable_migration, write_failed, Result, ok, err, M, ◌>>=◌, ◌>>◌, continue, lift, create,
  write, find_id, first_named,
}

pub record D1Decl : Type 0 where
  pub name : Text
  pub migrations_dir : Text
  pub location_hint : Text

-- os.ReadDir, with whether an entry is a directory, and os.ReadFile.
pub record Migrations : Type 0 where
  pub entries : Text → Option (List (Text × Bool))
  pub read_file : Text → Text → Option Text

-- filepath.Ext of a base name: from the last dot on.
unfoldable pub ext : Text → Text
ext [] = []
ext (c ∷ cs) =
    let rest = ext cs in if text_eq rest [] then (if c == b'.' then c ∷ cs else []) else rest

sql_files : List (Text × Bool) → List Text
unfolding ext
sql_files [] = []
sql_files ((name, is_dir) ∷ entries) =
    let rest = sql_files entries in
    if is_dir
    then rest
    else if text_eq (to_lower (ext name)) (codes ".sql")
    then name ∷ rest
    else rest

unfoldable pub sorted_migration_files : Migrations → Text → Result (List Text)
unfolding sql_files
sorted_migration_files fs dir = elim (fs.entries dir) [
  | none ↦ err no_migrations_dir
  | some entries ↦ ok (sort (sql_files entries))
]

unfoldable pub is_applied : Text → List Text → Bool
is_applied f [] = false
is_applied f (a ∷ applied) = let rest = is_applied f applied in if text_eq a f then true else rest

unfoldable pub pending_migrations : List Text → List Text → List Text
pending_migrations [] applied = []
pending_migrations (f ∷ files) applied =
    let rest = pending_migrations files applied in if is_applied f applied then rest else f ∷ rest

unfoldable pub row_name : Row → List Text
row_name none = []
row_name (some m) = elim (get (codes "name") m) [
  | none ↦ []
  | some (text t) ↦ if text_eq t [] then [] else t ∷ []
  | some other ↦ []
]

-- The names in a result, as a list in place of a set.
unfoldable pub parse_applied_migrations : List Row → List Text
unfolding row_name
parse_applied_migrations [] = []
parse_applied_migrations (r ∷ rows) = row_name r ++ parse_applied_migrations rows

unfoldable pub all_applied : List (List Row) → List Text
all_applied [] = []
all_applied (r ∷ results) = parse_applied_migrations r ++ all_applied results

-- strings.ReplaceAll(s, "'", "''")
unfoldable pub double_quotes : Text → Text
double_quotes [] = []
double_quotes (c ∷ cs) =
    let rest = double_quotes cs in if c == b'\'' then c ∷ c ∷ rest else c ∷ rest

unfoldable pub sql_quote : Text → Text
unfolding double_quotes
sql_quote s = b'\'' ∷ (double_quotes s ++ b'\'' ∷ [])

abbrev pub migrations_table : Text
migrations_table = codes "_nextdeploy_migrations"

unfoldable pub create_table : Text
create_table =
    codes "CREATE TABLE IF NOT EXISTS "
    ++ (migrations_table ++ codes " (name TEXT PRIMARY KEY, applied_at TEXT NOT NULL);")

-- A migration and the record of it, in one batch.
unfoldable pub combined : Text → Text → Text
combined sql name =
    sql
    ++ (10
        ∷ (codes "INSERT OR IGNORE INTO "
            ++ (migrations_table
                ++ (codes " (name, applied_at) VALUES ("
                    ++ (sql_quote name ++ codes ", datetime('now'));")))))

unfoldable pub find_d1_id : {World : Type 0} → Api World → Text → World → Result (Option Text)
find_d1_id api name w = find_id name (api.list_d1 w name)

module _ {World : Type 0} (fs : Migrations) (api : Api World) where
  unfoldable pub query_applied_migrations : Text → World → Result (List Text)
  unfolding all_applied
  query_applied_migrations db w =
      elim (api.select w db (codes "SELECT name FROM " ++ (migrations_table ++ codes ";"))) [
        | none ↦ err (api_error other_error)
        | some results ↦ ok (all_applied results)
      ]

  unfoldable pub apply_one : Text → Text → Option Text → M World (Unit {0})
  apply_one db f none = failed unreadable_migration
  apply_one db f (some sql) = write (api.exec db (combined sql f))

  unfoldable pub apply_all : Text → Text → List Text → M World (Unit {0})
  unfolding apply_one
  apply_all db dir [] = done tt
  apply_all db dir (f ∷ pending) = apply_one db f (fs.read_file dir f) >> apply_all db dir pending

  unfoldable pub apply_files : Text → Text → List Text → M World (Unit {0})
  unfolding create_table
  apply_files db dir [] = done tt
  apply_files db dir (f ∷ files) = do
    write (api.exec db create_table)
    applied ← lift (query_applied_migrations db)
    apply_all db dir (pending_migrations (f ∷ files) applied)

  unfoldable pub apply_d1_migrations : Text → D1Decl → M World (Unit {0})
  unfolding apply_files
  apply_d1_migrations db d = do
    files ← lift (λ _. sorted_migration_files fs d.migrations_dir)
    apply_files db d.migrations_dir files

  unfoldable pub create_d1 : D1Decl → Option Text → M World Text
  create_d1 d (some id) = done id
  create_d1 d none = create (api.new_d1 d.name d.location_hint)

  unfoldable pub migrate : D1Decl → Text → M World Text
  migrate d db w =
      if text_eq d.migrations_dir [] then done db w else (do apply_d1_migrations db d; done db) w

  unfoldable pub ensure_d1_database : D1Decl → M World Text
  unfolding create_d1 migrate
  ensure_d1_database d = do
    existing ← lift (find_d1_id api d.name)
    db ← create_d1 d existing
    migrate d db
