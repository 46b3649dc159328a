-- ===== src/Cloudflare/Api.antt =====
-- The Cloudflare API as the provider calls it (cli/internal/serverless): every answer is a parameter,
-- over a state `World` of the account that only the writing calls change; and the steps of the
-- provider on it.
use next_deploy.Common.{
  ℕ, Bool, true, false, Option, none, some, List, [], ◌∷◌, if◌then◌else◌, arith, ◌≡◌, refl, ◌⊎◌,
  inl, inr,
}
use next_deploy.Common.Text.{Text, text_eq}
use next_deploy.Common.Map.{Map}

pub data ApiError : Type 0 where
  not_found other_error : ApiError

-- A resource of the account, by its name (or title) and its identifier.
pub record Named : Type 0 where
  pub name : Text
  pub id : Text

-- What a paging iterator yields: the items up to its end, and the error that ended it, if one did.
pub record Listing (A : Type 0) : Type 0 where
  pub items : List A
  pub err : Option ApiError

pub data Answer (A : Type 0) : Type 0 where
  got : A → Answer A
  refused : ApiError → Answer A

pub data Metric : Type 0 where
  cosine euclidean dot_product : Metric

pub record Index : Type 0 where
  pub dimensions : ℕ
  pub metric : Metric

pub record DnsRecord : Type 0 where
  pub id : Text
  pub name : Text
  pub kind : Text
  pub content : Text
  pub ttl : ℕ
  pub proxied : Bool

-- The body of a request for a record; a TXT record has no `proxied`.
pub record Body : Type 0 where
  pub name : Text
  pub kind : Text
  pub content : Text
  pub ttl : ℕ
  pub proxied : Option Bool

pub record Origin : Type 0 where
  pub scheme : Text
  pub host : Text
  pub port : ℕ
  pub user : Text
  pub password : Text
  pub database : Text

-- A cell of a query's result; a row that is no object is `none`.
pub data Cell : Type 0 where
  text : Text → Cell
  other : Cell

abbrev pub Row : Type 0
Row = Option (Map Cell)

pub record Api (World : Type 0) : Type 0 where
  pub list_d1 : World → Text → Listing Named  -- filtered by a name, of which it is a prefix
  pub list_kv : World → Listing Named
  pub list_hyperdrive : World → Listing Named
  pub list_queues : World → Listing Named
  pub list_consumers : World → Text → Listing Named  -- by script name, of a queue
  pub get_vectorize : World → Text → Answer Index
  pub get_gateway : World → Text → Answer (Unit {0})
  pub list_zones : World → Text → Answer (List Text)
  pub list_dns : World → Text → Text → Listing DnsRecord  -- zone, exact name
  pub list_zone : World → Text → Listing DnsRecord
  pub select : World → Text → Text → Option (List (List Row))
  pub exec : Text → Text → World → Bool × World
  pub new_d1 : Text → Text → World → Option Text × World  -- name, location hint
  pub new_kv : Text → World → Option Text × World
  pub new_hyperdrive : Text → Origin → World → Option Text × World
  pub update_hyperdrive : Text → Text → Origin → World → Option Text × World
  pub new_queue : Text → World → Option Text × World
  pub new_vectorize : Text → Index → World → Option Text × World
  pub new_gateway : Text → World → Option Text × World
  pub new_dns : Text → Body → World → Bool × World
  pub edit_dns : Text → Text → Body → World → Bool × World
  pub delete_d1 : Text → World → Option ApiError × World  -- by identifier; `none`: it is deleted
  pub delete_kv : Text → World → Option ApiError × World
  pub delete_hyperdrive : Text → World → Option ApiError × World
  pub delete_vectorize : Text → World → Option ApiError × World
  pub delete_queue : Text → World → Option ApiError × World
  pub delete_gateway : Text → World → Option ApiError × World
  pub delete_dns : Text → Text → World → Option ApiError × World  -- zone, identifier

pub data Error : Type 0 where
  api_error : ApiError → Error
  write_failed no_zone missing_field bad_dimensions unknown_metric immutable_drift : Error
  unsupported_type no_origin bad_origin no_migrations_dir unreadable_migration bad_min_ttl : Error

-- What only reads the account.
pub data Result (A : Type 0) : Type 0 where
  ok : A → Result A
  err : Error → Result A

pub Result-cases :
    {A : Type 0} (r : Result A) → ((a : A) × (r ≡ ok a)) ⊎ ((e : Error) × (r ≡ err e))
Result-cases (ok a) = inl (a, refl)
Result-cases (err e) = inr (e, refl)

abbrev pub and_then : {A B : Type 0} → Result A → (A → Result B) → Result B
and_then (ok a) f = f a
and_then (err e) f = err e

-- A step that may write: what was done before a failure stays done.
pub data Run (World A : Type 0) : Type 0 where
  done : A → World → Run World A
  failed : Error → World → Run World A

abbrev pub M : Type 0 → Type 0 → Type 0
M World A = World → Run World A

abbrev pub continue : {World A B : Type 0} → Run World A → (A → M World B) → Run World B
continue (done a w) f = f a w
continue (failed e w) f = failed e w

infixl 5 ◌>>=◌ ◌>>◌
abbrev pub ◌>>=◌ : {World A B : Type 0} → M World A → (A → M World B) → M World B
◌>>=◌ m f w = continue (m w) f

abbrev pub ◌>>◌ : {World B : Type 0} → M World (Unit {0}) → M World B → M World B
m >> n = m >>= λ _. n

abbrev pub lift : {World A : Type 0} → (World → Result A) → M World A
lift f w = elim (f w) [ ok a ↦ done a w | err e ↦ failed e w ]

pub lift_ok :
    {World A : Type 0} (f : World → Result A) (w : World) (a : A) → f w ≡ ok a → lift f w ≡ done a w
lift_ok f w a h = rw (h, lift) refl

pub lift_err :
    {World A : Type 0} (f : World → Result A) (w : World) (e : Error)
    → f w ≡ err e
    → lift f w ≡ failed e w
lift_err f w e h = rw (h, lift) refl

-- A call that answers with the identifier of what it made.
abbrev pub create : {World : Type 0} → (World → Option Text × World) → M World Text
create call w =
    let (answer, w') = call w in
    elim answer [ some id ↦ done id w' | none ↦ failed write_failed w' ]

abbrev pub write : {World : Type 0} → (World → Bool × World) → M World (Unit {0})
write call w = let (written, w') = call w in if written then done tt w' else failed write_failed w'

-- A sequence that succeeds went through its first step.
pub continue_done :
    {World A B : Type 0} (r : Run World A) (f : A → M World B) (b : B) (after : World)
    → continue r f ≡ done b after
    → (a : A) × (v : World) × (r ≡ done a v) × (f a v ≡ done b after)
continue_done (done a v) f b after h = (a, v, refl, h)
continue_done (failed e v) f b after h = ground (arith, h)

written :
    {World : Type 0} (answer : Bool) (v after : World) (u : Unit {0})
    → (if answer then done tt v else failed write_failed v) ≡ done u after
    → (answer ≡ true) × (v ≡ after)
written true v after u h = (refl, ground (arith, h))
written false v after u h = ground (arith, h)

pub write_done :
    {World : Type 0} (call : World → Bool × World) (w after : World) (u : Unit {0})
    → write call w ≡ done u after
    → ((call w).0 ≡ true) × ((call w).1 ≡ after)
write_done call w after u h = written (call w).0 (call w).1 after u h

-- The end of a listing in which nothing fitted: a 404 counts as an empty list.
unfoldable pub no_match : Option ApiError → Result (Option Text)
no_match none = ok none
no_match (some not_found) = ok none
no_match (some other_error) = err (api_error other_error)

-- The loop `for iter.Next() { if x.Name == name { return x.ID, nil } }`; "" is `none`.
unfoldable pub first_named : Text → Option ApiError → List Named → Result (Option Text)
unfolding no_match
first_named name ending [] = no_match ending
first_named name ending (x ∷ xs) =
    let rest = first_named name ending xs in
    if text_eq x.name name then ok (if text_eq x.id [] then none else some x.id) else rest

abbrev pub find_id : Text → Listing Named → Result (Option Text)
find_id name l = first_named name l.err l.items
