-- ===== src/Updater/Versions.antt =====
-- The versions of shared/updater/updater.go: stripV, splitVer, compareVersions and isNewer. An `int` is
-- its 64 bits.
pub mod Ordered
mod Tests
use next_deploy.Common.{
  ℕ, ◌+◌, ◌-◌, ◌*◌, ◌%◌, ◌^◌, Bool, true, false, ◌&&◌, List, [], ◌∷◌, ◌++◌, ltb, leb, ◌==◌,
  if◌then◌else◌,
}
use next_deploy.Common.Text.{Text}

-- strings.TrimPrefix(v, "v")
unfoldable pub strip_v : Text → Text
strip_v [] = []
strip_v (c ∷ cs) = if c == b'v' then cs else c ∷ cs

-- strings.Split(v, "-")[0]
unfoldable pub before_dash : Text → Text
before_dash [] = []
before_dash (c ∷ cs) = let rest = before_dash cs in if c == b'-' then [] else c ∷ rest

-- `cur*10 + int(c-'0')`, as 64 bits.
push_digit : ℕ → ℕ → ℕ
push_digit cur c = (cur * 10 + (c - b'0')) % 2 ^ 64

last_part : ℕ → Bool → List ℕ
last_part cur has_digit = if has_digit then cur ∷ [] else []

-- The loop of splitVer, from the number read so far.
unfoldable pub split_from : ℕ → Bool → Text → List ℕ
unfolding push_digit last_part
split_from cur has_digit [] = last_part cur has_digit
split_from cur has_digit (c ∷ cs) =
    if c == b'.'
    then cur ∷ split_from 0 false cs
    else if leb b'0' c && leb c b'9'
    then split_from (push_digit cur c) true cs
    else last_part cur has_digit

unfoldable pub split_ver : Text → List ℕ
unfolding split_from
split_ver v = split_from 0 false v

-- The order of two's complement.
unfoldable pub biased : ℕ → ℕ
biased bits = (bits + 2 ^ 63) % 2 ^ 64

unfoldable pub int_lt : ℕ → ℕ → Bool
unfolding biased
int_lt a b = ltb (biased a) (biased b)

-- -1, 0 and 1.
pub data Sign : Type 0 where
  less same greater : Sign

compare_part : ℕ → ℕ → Sign → Sign
compare_part a b rest = if int_lt b a then greater else if int_lt a b then less else rest

-- The loop over both lists of parts, of which the shorter goes on with zeros.
unfoldable pub compare_parts : List ℕ → List ℕ → Sign
unfolding compare_part
compare_parts [] [] = same
compare_parts [] (y ∷ ys) = let rest = compare_parts [] ys in compare_part 0 y rest
compare_parts (x ∷ xs) [] = let rest = compare_parts xs [] in compare_part x 0 rest
compare_parts (x ∷ xs) (y ∷ ys) = let rest = compare_parts xs ys in compare_part x y rest

unfoldable pub parts_of : Text → List ℕ
parts_of v = split_ver (strip_v (before_dash v))

unfoldable pub compare_versions : Text → Text → Sign
compare_versions v1 v2 = compare_parts (parts_of v1) (parts_of v2)

unfoldable pub is_newer : Text → Text → Bool
is_newer candidate current = elim (compare_versions candidate current) [
  | greater ↦ true
  | _ ↦ false
]
