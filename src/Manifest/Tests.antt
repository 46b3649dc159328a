-- ===== src/Manifest/Tests.antt =====
-- Two recorded resources, one of which is declared (cli/internal/serverless/cfstate/cfstate.go).
use next_deploy.Common.{◌≡◌, refl, Bool, true, [], ◌∷◌}
use next_deploy.Common.Text.{codes, text_eq, text_le}
use next_deploy.Common.Map.{Map, get, put, remove}
use next_deploy.Manifest.{
  Resource, Manifest, new, key, key_of, set, orphans, insert_record, sort_records, undeclared,
  is_declared,
}
use next_deploy.Manifest.Orphans.{IsKeyed, set-IsKeyed}

abbrev two : Manifest
two =
    set (codes "kv") (codes "cache") (codes "i1") (codes "t1")
      (set (codes "d1") (codes "main") (codes "i2") (codes "t2") new)

abbrev cache : Resource
cache = record { kind = codes "kv"; name = codes "cache"; id = codes "i1"; updated_at = codes "t1" }

abbrev declared : Map Bool
declared = (codes "d1:main", true) ∷ []

one_orphan : orphans declared two ≡ cache ∷ []
unfolding orphans undeclared is_declared sort_records insert_record set put remove key new get
    text_eq text_le key_of
one_orphan = refl

two-IsKeyed : IsKeyed two.resources
unfolding new
two-IsKeyed =
    set-IsKeyed (codes "kv") (codes "cache") (codes "i1") (codes "t1")
      (set (codes "d1") (codes "main") (codes "i2") (codes "t2") new)
      (set-IsKeyed (codes "d1") (codes "main") (codes "i2") (codes "t2") new tt)
