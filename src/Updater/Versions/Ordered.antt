-- ===== src/Updater/Versions/Ordered.antt =====
-- The order that compareVersions of shared/updater/updater.go makes.
use next_deploy.Common.{ℕ, ◌≡◌, ◌≢◌, refl, ap, true, false, List, [], ◌∷◌, ◌++◌, arith}
use next_deploy.Common.Text.{Text}
use next_deploy.Updater.Versions.{
  before_dash, strip_v, split_ver, int_lt, Sign, less, same, greater, compare_part, compare_parts,
  parts_of, compare_versions, is_newer,
}

abbrev pub opposite : Sign → Sign
opposite less = greater
opposite same = same
opposite greater = less

compare_part-opposite :
    (a b : ℕ) (r r' : Sign) → r ≡ opposite r' → compare_part a b r ≡ opposite (compare_part b a r')
unfolding compare_part int_lt
compare_part-opposite a b r r' h = ground arith

compare_parts-opposite : (xs ys : List ℕ) → compare_parts xs ys ≡ opposite (compare_parts ys xs)
unfolding compare_parts
compare_parts-opposite [] [] = refl
compare_parts-opposite [] (y ∷ ys) =
    compare_part-opposite 0 y (compare_parts [] ys) (compare_parts ys [])
      (compare_parts-opposite [] ys)
compare_parts-opposite (x ∷ xs) [] =
    compare_part-opposite x 0 (compare_parts xs []) (compare_parts [] xs)
      (compare_parts-opposite xs [])
compare_parts-opposite (x ∷ xs) (y ∷ ys) =
    compare_part-opposite x y (compare_parts xs ys) (compare_parts ys xs)
      (compare_parts-opposite xs ys)

-- What follows from two comparisons in the same direction.
abbrev Chain : Sign → Sign → Sign → Type 0
Chain less less r = r ≡ less
Chain less same r = r ≡ less
Chain same s r = r ≡ s
Chain greater greater r = r ≡ greater
Chain greater same r = r ≡ greater
Chain less greater r = Unit
Chain greater less r = Unit

compare_part-Chain :
    (a b c : ℕ) (r s t : Sign)
    → Chain r s t
    → Chain (compare_part a b r) (compare_part b c s) (compare_part a c t)
unfolding compare_part int_lt
compare_part-Chain a b c less s t h = ground arith
compare_part-Chain a b c same s t h = ground arith
compare_part-Chain a b c greater s t h = ground arith

compare_parts-Chain :
    (xs ys zs : List ℕ) → Chain (compare_parts xs ys) (compare_parts ys zs) (compare_parts xs zs)
unfolding compare_parts int_lt
compare_parts-Chain [] [] zs = refl
compare_parts-Chain [] (y ∷ ys) [] =
    compare_part-Chain 0 y 0 (compare_parts [] ys) (compare_parts ys []) same
      (compare_parts-Chain [] ys [])
compare_parts-Chain [] (y ∷ ys) (z ∷ zs) =
    compare_part-Chain 0 y z (compare_parts [] ys) (compare_parts ys zs) (compare_parts [] zs)
      (compare_parts-Chain [] ys zs)
compare_parts-Chain (x ∷ xs) [] [] =
    compare_part-Chain x 0 0 (compare_parts xs []) same (compare_parts xs [])
      (compare_parts-Chain xs [] [])
compare_parts-Chain (x ∷ xs) [] (z ∷ zs) =
    compare_part-Chain x 0 z (compare_parts xs []) (compare_parts [] zs) (compare_parts xs zs)
      (compare_parts-Chain xs [] zs)
compare_parts-Chain (x ∷ xs) (y ∷ ys) [] =
    compare_part-Chain x y 0 (compare_parts xs ys) (compare_parts ys []) (compare_parts xs [])
      (compare_parts-Chain xs ys [])
compare_parts-Chain (x ∷ xs) (y ∷ ys) (z ∷ zs) =
    compare_part-Chain x y z (compare_parts xs ys) (compare_parts ys zs) (compare_parts xs zs)
      (compare_parts-Chain xs ys zs)

-- Comparing the other way round gives the opposite sign.
pub compare_versions-opposite :
    (v w : Text) → compare_versions v w ≡ opposite (compare_versions w v)
unfolding compare_versions
compare_versions-opposite v w = compare_parts-opposite (parts_of v) (parts_of w)

-- What is newer than a version that is not older than a third is newer than the third.
pub is_newer_trans :
    (u v w : Text) → is_newer u v ≡ true → compare_versions v w ≢ less → is_newer u w ≡ true
unfolding is_newer compare_versions
is_newer_trans u v w newer not_older =
    ground (arith, compare_parts-Chain (parts_of u) (parts_of v) (parts_of w))

before_dash-append : (v x : Text) → before_dash (v ++ b'-' ∷ x) ≡ before_dash v
unfolding before_dash
before_dash-append [] x = refl
before_dash-append (c ∷ v) x = ground (arith, before_dash-append v x)

-- What follows a dash does not count, so that a release is not newer than its own pre-release.
pub not_newer_than_prerelease : (v x : Text) → is_newer v (v ++ b'-' ∷ x) ≡ false
unfolding is_newer compare_versions parts_of
not_newer_than_prerelease v x = ground (
  arith,
  ap (λ t. compare_parts (parts_of v) (split_ver (strip_v t))) (before_dash-append v x),
  compare_parts-opposite (parts_of v) (parts_of v),
)
