-- ===== src/Cloudflare/Bindings.antt =====
-- The bindings and the metadata of a worker's script (cloudflare_bindings.go in
-- cli/internal/serverless). Sampling rates are exact numbers of 10^-9.
pub mod Distinct
pub mod Sorted
mod Tests
use next_deploy.Common.{
  ℕ, suc, Bool, true, false, not, ◌&&◌, ◌||◌, Option, none, some, List, [], ◌∷◌, ◌++◌, ltb,
  if◌then◌else◌, map,
}
use mathlib.Core.List.{reverse}
use next_deploy.Common.Int.{ℤ, pos, negsuc}
use next_deploy.Common.Text.{Text, codes, text_eq, text_le}
use next_deploy.Common.Map.{Map, get}
use next_deploy.Daemon.EnvFile.{keys, value_of}

-- What binds to a resource by its identifier or by the name that it was provisioned under.
pub record RefDecl : Type 0 where
  pub name : Text
  pub id : Text
  pub ref : Text

-- A binding with one more text: a bucket, a queue, an index or a value.
pub record NamedDecl : Type 0 where
  pub name : Text
  pub target : Text

pub record ObjectDecl : Type 0 where
  pub name : Text
  pub class_name : Text
  pub script : Text

pub record SecretDecl : Type 0 where
  pub name : Text
  pub store_id : Text
  pub secret_name : Text

pub record BindingsDecl : Type 0 where
  pub r2 : List NamedDecl
  pub d1 : List RefDecl
  pub hyperdrive : List RefDecl
  pub producers : List NamedDecl
  pub vectorize : List NamedDecl
  pub ai : List Text
  pub durable_objects : List ObjectDecl
  pub kv : List RefDecl
  pub plain_text : List NamedDecl
  pub secrets_store : List SecretDecl

pub data Binding : Type 0 where
  r2_bucket d1_database hyperdrive_config queue_producer vectorize_index : Text → Text → Binding
  ai_model : Text → Binding
  durable_object : Text → Text → Option Text → Binding
  kv_namespace plain_value secret_text : Text → Text → Binding
  stored_secret : Text → Text → Text → Binding

unfoldable pub binding_name : Binding → Text
binding_name (r2_bucket name t) = name
binding_name (d1_database name t) = name
binding_name (hyperdrive_config name t) = name
binding_name (queue_producer name t) = name
binding_name (vectorize_index name t) = name
binding_name (ai_model name) = name
binding_name (durable_object name t script) = name
binding_name (kv_namespace name t) = name
binding_name (plain_value name t) = name
binding_name (secret_text name t) = name
binding_name (stored_secret name store secret) = name

pub data BindingError : Type 0 where
  no_bucket ref_not_found id_required fields_required duplicate_name : BindingError

pub data Built (A : Type 0) : Type 0 where
  ok : A → Built A
  err : BindingError → Built A

abbrev and_then : {A B : Type 0} → Built A → (A → Built B) → Built B
and_then (ok a) f = f a
and_then (err e) f = err e

-- One binding for each declaration, until one fails.
unfoldable pub bind_all : {D : Type 0} → (D → Built Binding) → List D → Built (List Binding)
bind_all one [] = ok []
bind_all one (d ∷ ds) = and_then (one d) λ b. and_then (bind_all one ds) λ bs. ok (b ∷ bs)

unfoldable pub bind_bucket : Text → NamedDecl → Built Binding
bind_bucket default_bucket r =
    let bucket = if text_eq r.target [] then default_bucket else r.target in
    if text_eq bucket [] then err no_bucket else ok (r2_bucket r.name bucket)

with_id : (Text → Text → Binding) → Text → Text → Built Binding
with_id kind name id = if text_eq id [] then err id_required else ok (kind name id)

resolved : (Text → Text → Binding) → Text → Option Text → Built Binding
resolved kind name none = err ref_not_found
resolved kind name (some id) = with_id kind name id

-- The identifier, or else the one that the name was provisioned with.
unfoldable pub bind_ref : (Text → Text → Binding) → (Text → Option Text) → RefDecl → Built Binding
unfolding resolved with_id
bind_ref kind resolve d =
    if text_eq d.id [] && not (text_eq d.ref [])
    then resolved kind d.name (resolve d.ref)
    else with_id kind d.name d.id

bind_named : (Text → Text → Binding) → NamedDecl → Built Binding
bind_named kind d = ok (kind d.name d.target)

bind_object : ObjectDecl → Built Binding
bind_object d =
    ok (durable_object d.name d.class_name (if text_eq d.script [] then none else some d.script))

unfoldable pub bind_secret : SecretDecl → Built Binding
bind_secret d =
    if text_eq d.store_id [] || text_eq d.secret_name []
    then err fields_required
    else ok (stored_secret d.name d.store_id d.secret_name)

unfoldable pub join_built : List (Built (List Binding)) → Built (List Binding)
join_built [] = ok []
join_built (b ∷ bs) = and_then b λ xs. and_then (join_built bs) λ ys. ok (xs ++ ys)

-- The bucket of the assets, which is bound where no bucket is declared.
unfoldable pub assets_binding : Text → List NamedDecl → List Binding
assets_binding default_bucket (r ∷ r2) = []
assets_binding default_bucket [] =
    if text_eq default_bucket [] then [] else r2_bucket (codes "ASSETS") default_bucket ∷ []

-- `resolve` gives the identifier of a kind and a name.
unfoldable pub build_bindings :
    (Text → Text → Option Text) → Text → Option BindingsDecl → Built (List Binding)
unfolding bind_named bind_object
build_bindings resolve default_bucket none = ok (assets_binding default_bucket [])
build_bindings resolve default_bucket (some b) = join_built (
    ok (assets_binding default_bucket b.r2)
    ∷ bind_all (bind_bucket default_bucket) b.r2
    ∷ bind_all (bind_ref d1_database (resolve (codes "d1"))) b.d1
    ∷ bind_all (bind_ref hyperdrive_config (resolve (codes "hyperdrive"))) b.hyperdrive
    ∷ bind_all (bind_named queue_producer) b.producers
    ∷ bind_all (bind_named vectorize_index) b.vectorize
    ∷ bind_all (λ name. ok (ai_model name)) b.ai
    ∷ bind_all bind_object b.durable_objects
    ∷ bind_all (bind_ref kv_namespace (resolve (codes "kv"))) b.kv
    ∷ bind_all (bind_named plain_value) b.plain_text
    ∷ bind_all bind_secret b.secrets_store
    ∷ [])

-- A key goes down past the greater ones; the sorted keys stand with the last one first.
unfoldable pub sift : Text → List Text → List Text
sift x [] = x ∷ []
sift x (y ∷ ys) = let rest = sift x ys in if text_le y x then x ∷ y ∷ ys else y ∷ rest

unfoldable pub sift_all : List Text → List Text → List Text
sift_all [] sorted = sorted
sift_all (x ∷ xs) sorted = sift_all xs (sift x sorted)

-- The insertion sort of sortedKeys.
unfoldable pub sorted_keys : Map Text → List Text
sorted_keys m = reverse (sift_all (keys m) [])

unfoldable pub secret_bindings : Map Text → List Text → List Binding
secret_bindings secrets [] = []
secret_bindings secrets (k ∷ ks) =
    secret_text k (value_of (get k secrets)) ∷ secret_bindings secrets ks

unfoldable pub is_bound : Text → List Text → Bool
is_bound name [] = false
is_bound name (x ∷ xs) = text_eq x name || is_bound name xs

-- Whether a name that is not blank stands twice, with those seen before.
unfoldable pub has_duplicate : List Text → List Binding → Bool
unfolding is_bound
has_duplicate seen [] = false
has_duplicate seen (b ∷ bs) =
    let skipped = has_duplicate seen bs in
    let more = has_duplicate (binding_name b ∷ seen) bs in
    if text_eq (binding_name b) []
    then skipped
    else if is_bound (binding_name b) seen
    then true
    else more

pub record Observability : Type 0 where
  pub enabled : Bool
  pub head_sampling_rate : ℕ

pub record ObservabilityDecl : Type 0 where
  pub enabled : Option Bool
  pub head_sampling_rate : ℤ

abbrev whole_rate : ℕ
whole_rate = 1000000000

-- The rate that is declared if it is above 0, and at most 1.
sampling_rate : ℤ → ℕ
sampling_rate (negsuc n) = whole_rate
sampling_rate (pos n) = if ltb 0 n then (if ltb whole_rate n then whole_rate else n) else whole_rate

is_enabled : Option Bool → Bool
is_enabled none = true
is_enabled (some b) = b

unfoldable pub build_observability : Option ObservabilityDecl → Observability
unfolding sampling_rate is_enabled
build_observability none = record { enabled = true; head_sampling_rate = whole_rate }
build_observability (some d) = record {
  enabled = is_enabled d.enabled;
  head_sampling_rate = sampling_rate d.head_sampling_rate;
}

pub record ClassMigration : Type 0 where
  pub tag : Text
  pub new_sqlite_classes : List Text
  pub new_classes : List Text
  pub deleted_classes : List Text
  pub renamed_classes : List (Text × Text)  -- from, to
  pub transferred_classes : List (Text × Text × Text)  -- from, its script, to

-- The steps, and the tag of the last one.
pub record MigrationSteps : Type 0 where
  pub steps : List ClassMigration
  pub new_tag : Option Text

last_tag : List ClassMigration → Option Text
last_tag [] = none
last_tag (m ∷ []) = some m.tag
last_tag (m ∷ n ∷ ms) = last_tag (n ∷ ms)

unfoldable pub build_migrations : List ClassMigration → MigrationSteps
unfolding last_tag
build_migrations ms = record { steps = ms; new_tag = last_tag ms }

pub record CloudflareDecl : Type 0 where
  pub compatibility_date : Text
  pub compatibility_flags : List Text
  pub bindings : Option BindingsDecl
  pub observability : Option ObservabilityDecl
  pub migrations : List ClassMigration

pub record ScriptMetadata : Type 0 where
  pub main_module : Text
  pub compatibility_date : Text
  pub compatibility_flags : List Text
  pub bindings : List Binding
  pub observability : Observability
  pub migrations : Option MigrationSteps

compatibility_date_of : Option CloudflareDecl → Text
compatibility_date_of none = codes "2025-04-01"
compatibility_date_of (some cf) =
    if text_eq cf.compatibility_date [] then codes "2025-04-01" else cf.compatibility_date

or_default_flags : List Text → List Text
or_default_flags [] = codes "nodejs_compat_v2" ∷ []
or_default_flags (f ∷ fs) = f ∷ fs

flags_of : Option CloudflareDecl → List Text
unfolding or_default_flags
flags_of none = codes "nodejs_compat_v2" ∷ []
flags_of (some cf) = or_default_flags cf.compatibility_flags

bindings_of : Option CloudflareDecl → Option BindingsDecl
bindings_of none = none
bindings_of (some cf) = cf.bindings

observability_of : Option CloudflareDecl → Option ObservabilityDecl
observability_of none = none
observability_of (some cf) = cf.observability

some_migrations : List ClassMigration → Option MigrationSteps
some_migrations [] = none
some_migrations (m ∷ ms) = some (build_migrations (m ∷ ms))

migrations_of : Option CloudflareDecl → Option MigrationSteps
unfolding some_migrations
migrations_of none = none
migrations_of (some cf) = some_migrations cf.migrations

checked : Option CloudflareDecl → Text → List Binding → Built ScriptMetadata
unfolding compatibility_date_of flags_of observability_of migrations_of
checked cf entry_name bindings =
    if has_duplicate [] bindings
    then err duplicate_name
    else ok (record {
      main_module = entry_name;
      compatibility_date = compatibility_date_of cf;
      compatibility_flags = flags_of cf;
      bindings = bindings;
      observability = build_observability (observability_of cf);
      migrations = migrations_of cf;
    })

unfoldable pub build_script_metadata :
    Option CloudflareDecl
    → Text
    → Text
    → (Text → Text → Option Text)
    → Map Text
    → Built ScriptMetadata
unfolding bindings_of checked
build_script_metadata cf default_bucket entry_name resolve secrets =
    and_then (build_bindings resolve default_bucket (bindings_of cf))
      λ bindings. checked cf entry_name (bindings ++ secret_bindings secrets (sorted_keys secrets))
