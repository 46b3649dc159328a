-- ===== src/Manifest/Orphans.antt =====
-- The orphans of a manifest (cli/internal/serverless/cfstate/cfstate.go).
use next_deploy.Common.{
  ◌≡◌, ◌≢◌, ◌↔◌, ◌⊎◌, inl, inr, ap, Bool, false, none, some, List, [], ◌∷◌, arith, In,
}
use next_deploy.Common.Text.{Text, text_eq_iff}
use next_deploy.Common.Map.{Map, get, put, remove, get-remove}
use next_deploy.Manifest.{
  Resource, Manifest, insert_record, sort_records, key_of, is_declared, undeclared, values, orphans,
  set, key, lookup,
}

In-insert_record_iff :
    (x r : Resource) (qs : List Resource) → In x (insert_record r qs) ↔ ((x ≡ r) ⊎ In x qs)
unfolding insert_record
In-insert_record_iff x r [] = ground arith
In-insert_record_iff x r (q ∷ qs) = ground (arith, In-insert_record_iff x r qs)

In-sort_records_iff : (x : Resource) (qs : List Resource) → In x (sort_records qs) ↔ In x qs
unfolding sort_records
In-sort_records_iff x [] = ground arith
In-sort_records_iff x (q ∷ qs) =
    ground (arith, In-sort_records_iff x qs, In-insert_record_iff x q (sort_records qs))

-- A resource stands under its key, and every key once.
abbrev pub IsKeyed : Map Resource → Type 0
IsKeyed [] = Unit
IsKeyed ((k, r) ∷ m) = (k ≡ key_of r) × (get k m ≡ none) × IsKeyed m

get-none-In :
    (m : Map Resource) (r : Resource) → IsKeyed m → In r (values m) → get (key_of r) m ≢ none
unfolding get values
get-none-In [] r h i e = elim i [ ]
get-none-In ((k, q) ∷ m) r h (inl same) e =
    ground (arith, h.0, ap key_of same, text_eq_iff k (key_of r))
get-none-In ((k, q) ∷ m) r h (inr i) e =
    ground (arith, get-none-In m r h.2 i, text_eq_iff k (key_of r))

In-undeclared_iff :
    (declared : Map Bool) (m : Map Resource) (r : Resource)
    → IsKeyed m
    → In r (undeclared declared m)
      ↔ ((get (key_of r) m ≡ some r) × (is_declared (get (key_of r) declared) ≡ false))
unfolding get undeclared
In-undeclared_iff declared [] r h = ground arith
In-undeclared_iff declared ((k, q) ∷ m) r h =
    ground
      (arith, In-undeclared_iff declared m r h.2, h.0, h.1, text_eq_iff k (key_of r), ap key_of)

remove-IsKeyed : (k : Text) (m : Map Resource) → IsKeyed m → IsKeyed (remove k m)
unfolding remove
remove-IsKeyed k [] h = tt
remove-IsKeyed k ((j, r) ∷ m) h = ground (arith, remove-IsKeyed k m h.2, get-remove k j m, h.0, h.1)

-- Setting a resource keeps every resource under its key.
pub set-IsKeyed :
    (kind name id at : Text) (m : Manifest)
    → IsKeyed m.resources
    → IsKeyed (set kind name id at m).resources
unfolding set put key_of
set-IsKeyed kind name id at m h =
    let k = key kind name in
    ground (arith, remove-IsKeyed k m.resources h, get-remove k k m.resources, text_eq_iff k k)

-- In a manifest whose resources stand under their keys, the orphans are exactly the resources that it
-- has recorded and whose key is not declared.
orphans_iff :
    (declared : Map Bool) (m : Manifest) (r : Resource)
    → IsKeyed m.resources
    → In r (orphans declared m) ↔ (
        (lookup r.kind r.name m ≡ some r)
        × (is_declared (get (key r.kind r.name) declared) ≡ false))
unfolding orphans lookup key_of
orphans_iff declared m r h = ground (
  arith,
  In-undeclared_iff declared m.resources r h,
  In-sort_records_iff r (undeclared declared m.resources),
)
