-- ===== src/Common/Decimal.antt =====
-- Go's strconv.Atoi, for an int of 64 bits, and the cuts of texts that go with it.
use next_deploy.Common.{
  ℕ, ◌+◌, ◌-◌, ◌*◌, ◌^◌, Bool, true, false, ◌&&◌, Option, none, some, [], ◌∷◌, ◌==◌, ltb, leb,
  if◌then◌else◌,
}
use next_deploy.Common.Int.{ℤ, pos, negsuc}
use next_deploy.Common.Text.{Text}

unfoldable pub is_digit : ℕ → Bool
is_digit c = leb b'0' c && leb c b'9'

-- The value of digits, after those already read.
unfoldable pub digits_from : ℕ → Text → Option ℕ
unfolding is_digit
digits_from n [] = some n
digits_from n (c ∷ cs) =
    let rest = digits_from (n * 10 + (c - b'0')) cs in if is_digit c then rest else none

unfoldable pub digits_value : Text → Option ℕ
digits_value [] = none
digits_value (c ∷ cs) = digits_from 0 (c ∷ cs)

-- An error where the value does not fit.
unfoldable pub positive_int : Option ℕ → Option ℤ
positive_int none = none
positive_int (some n) = if ltb n (2 ^ 63) then some (pos n) else none

unfoldable pub negative_int : Option ℕ → Option ℤ
negative_int none = none
negative_int (some n) =
    if n == 0 then some (pos 0) else if leb n (2 ^ 63) then some (negsuc (n - 1)) else none

unfoldable pub atoi : Text → Option ℤ
atoi [] = none
atoi (c ∷ cs) =
    if c == b'-'
    then negative_int (digits_value cs)
    else if c == b'+'
    then positive_int (digits_value cs)
    else positive_int (digits_value (c ∷ cs))

unfoldable pub leading_digits : Text → Text
unfolding is_digit
leading_digits [] = []
leading_digits (c ∷ cs) = let rest = leading_digits cs in if is_digit c then c ∷ rest else []

unfoldable pub one_of : ℕ → Text → Bool
one_of c [] = false
one_of c (x ∷ xs) = let rest = one_of c xs in if x == c then true else rest

-- strings.TrimLeft
unfoldable pub trim_any : Text → Text → Text
unfolding one_of
trim_any set [] = []
trim_any set (c ∷ cs) = let rest = trim_any set cs in if one_of c set then rest else c ∷ cs

-- What stands before the first of some bytes.
unfoldable pub before_any : Text → Text → Text
unfolding one_of
before_any set [] = []
before_any set (c ∷ cs) = let rest = before_any set cs in if one_of c set then [] else c ∷ rest
