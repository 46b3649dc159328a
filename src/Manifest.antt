-- ===== src/Manifest.antt =====
-- The record of Cloudflare resources (cli/internal/serverless/cfstate/cfstate.go): setting, getting,
-- listing, the orphans, and the encrypted file. JSON, base64 and the cipher of shared/secrets are
-- parameters.
pub mod Orphans
mod Tests
use next_deploy.Common.{
  ℕ, Bool, true, false, Option, none, some, List, [], ◌∷◌, ◌++◌, if◌then◌else◌,
}
use next_deploy.Common.Text.{Text, codes, text_le}
use next_deploy.Common.Map.{Map, get, put}

pub record Resource : Type 0 where
  pub kind : Text
  pub name : Text
  pub id : Text
  pub updated_at : Text

pub record Manifest : Type 0 where
  pub version : ℕ
  pub resources : Map Resource

unfoldable pub new : Manifest
new = record { version = 1; resources = [] }

unfoldable pub key : Text → Text → Text
key kind name = kind ++ (codes ":" ++ name)

unfoldable pub set : Text → Text → Text → Text → Manifest → Manifest
set kind name id updated_at m = record m {
  resources =
      put (key kind name) (record { kind = kind; name = name; id = id; updated_at = updated_at })
        m.resources;
}

unfoldable pub lookup : Text → Text → Manifest → Option Resource
lookup kind name m = get (key kind name) m.resources

unfoldable pub key_of : Resource → Text
key_of r = key r.kind r.name

unfoldable pub insert_record : Resource → List Resource → List Resource
unfolding key_of
insert_record r [] = r ∷ []
insert_record r (q ∷ qs) =
    let rest = insert_record r qs in if text_le (key_of r) (key_of q) then r ∷ q ∷ qs else q ∷ rest

-- sort.Slice by the keys.
unfoldable pub sort_records : List Resource → List Resource
unfolding insert_record
sort_records [] = []
sort_records (r ∷ rs) = insert_record r (sort_records rs)

unfoldable pub values : Map Resource → List Resource
values [] = []
values ((k, r) ∷ m) = r ∷ values m

unfoldable pub list : Manifest → List Resource
unfolding sort_records values
list m = sort_records (values m.resources)

-- `declared[k]`
pub is_declared : Option Bool → Bool
is_declared none = false
is_declared (some b) = b

undeclared : Map Bool → Map Resource → List Resource
unfolding is_declared
undeclared declared [] = []
undeclared declared ((k, r) ∷ m) =
    let rest = undeclared declared m in if is_declared (get k declared) then rest else r ∷ rest

unfoldable pub orphans : Map Bool → Manifest → List Resource
unfolding sort_records undeclared
orphans declared m = sort_records (undeclared declared m.resources)

pub record Codec : Type 0 where
  pub to_json : Manifest → Text
  pub of_json : Text → Option Manifest
  pub encrypt : Text → Text → Option Text  -- data, key; base64 of the ciphertext
  pub base64_decode : Text → Option Text
  pub decrypt : Text → Text → Option Text

-- What is written, if it can be encrypted.
unfoldable pub save : Codec → Manifest → Text → Option Text
save c m enc_key = c.encrypt (c.to_json m) enc_key

-- A missing file is a new manifest; a file that cannot be decrypted is an error.
unfoldable pub load : Codec → Option Text → Text → Option Manifest
load c none enc_key = some new
load c (some encoded) enc_key = elim (c.base64_decode encoded) [
  | none ↦ none
  | some raw ↦ elim (c.decrypt raw enc_key) [ none ↦ none | some plain ↦ c.of_json plain ]
]
