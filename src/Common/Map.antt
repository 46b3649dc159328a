-- ===== src/Common/Map.antt =====
-- Go's map[string]V as an association list with distinct keys. The program never depends on the
-- order in which a map is walked.
use mathlib.Core.Path.{◌≡◌, refl}
use mathlib.Core.Bool.{Bool}
use mathlib.Core.List.{List, [], ◌∷◌}
use mathlib.Core.Option.{Option, none, some}
use native.Mathlib.Omega.{arith}
use next_deploy.Common.Tests.{if◌then◌else◌}
use next_deploy.Common.Text.{Text, text_eq, text_eq_iff}

abbrev pub Map {ℓ} : Type ℓ → Type ℓ
Map V = List (Text × V)

module _ {ℓ} {V : Type ℓ} where
  -- v, ok := m[k]
  unfoldable pub get : Text → Map V → Option V
  get k [] = none
  get k ((j, v) ∷ m) = if text_eq j k then some v else get k m

  -- delete(m, k)
  unfoldable pub remove : Text → Map V → Map V
  remove k [] = []
  remove k ((j, v) ∷ m) = let rest = remove k m in if text_eq j k then rest else (j, v) ∷ rest

  -- m[k] = v
  unfoldable pub put : Text → V → Map V → Map V
  unfolding remove
  put k v m = (k, v) ∷ remove k m

  -- `for k, v := range m { if !keep(v) { delete(m, k) } }`
  unfoldable pub retain : (V → Bool) → Map V → Map V
  retain keep [] = []
  retain keep ((j, v) ∷ m) = let rest = retain keep m in if keep v then (j, v) ∷ rest else rest

  pub get-remove :
      (k j : Text) (m : Map V) → get j (remove k m) ≡ (if text_eq k j then none else get j m)
  unfolding get remove
  get-remove k j [] = ground arith
  get-remove k j ((i, v) ∷ m) =
      ground (arith, get-remove k j m, text_eq_iff i k, text_eq_iff i j, text_eq_iff k j)

  pub get-put :
      (k j : Text) (v : V) (m : Map V)
      → get j (put k v m) ≡ (if text_eq k j then some v else get j m)
  unfolding put get
  get-put k j v m = ground (arith, get-remove k j m)

  -- Every key stands once.
  abbrev pub IsMap : Map V → Type ℓ
  IsMap [] = Unit
  IsMap ((k, v) ∷ m) = (get k m ≡ none) × IsMap m

  abbrev pub kept : (V → Bool) → Option V → Option V
  kept keep none = none
  kept keep (some v) = if keep v then some v else none

  get-retain-none :
      (keep : V → Bool) (k : Text) (m : Map V) → get k m ≡ none → get k (retain keep m) ≡ none
  unfolding get retain
  get-retain-none keep k [] h = refl
  get-retain-none keep k ((j, v) ∷ m) h = ground (arith, get-retain-none keep k m)

  pub get-retain :
      (keep : V → Bool) (k : Text) (m : Map V)
      → IsMap m
      → get k (retain keep m) ≡ kept keep (get k m)
  unfolding get retain
  get-retain keep k [] d = refl
  get-retain keep k ((j, v) ∷ m) d =
      ground (arith, get-retain keep k m d.1, get-retain-none keep k m, text_eq_iff j k)

  pub retain-IsMap : (keep : V → Bool) (m : Map V) → IsMap m → IsMap (retain keep m)
  unfolding retain
  retain-IsMap keep [] d = tt
  retain-IsMap keep ((j, v) ∷ m) d =
      ground (arith, retain-IsMap keep m d.1, get-retain-none keep j m d.0)

  remove-IsMap : (k : Text) (m : Map V) → IsMap m → IsMap (remove k m)
  unfolding remove
  remove-IsMap k [] d = tt
  remove-IsMap k ((j, v) ∷ m) d = ground (arith, remove-IsMap k m d.1, get-remove k j m)

  pub put-IsMap : (k : Text) (v : V) (m : Map V) → IsMap m → IsMap (put k v m)
  unfolding put
  put-IsMap k v m d = ground (arith, remove-IsMap k m d, get-remove k k m, text_eq_iff k k)
