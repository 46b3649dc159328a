-- ===== src/NextCompile/Versions/Printed.antt =====
-- Versions read back from their text (parseSemver, shared/nextcompile/version_detect.go).
use next_deploy.Common.{
  ℕ, zero, suc, ◌+◌, ◌-◌, ◌*◌, ◌/◌, ◌%◌, ◌^◌, ◌<◌, ◌≤◌, ◌≡◌, refl, sym, ap, ◌∙◌, Bool, true, false,
  ◌&&◌, ◌||◌, some, [], ◌∷◌, ◌++◌, ◌==◌, ltb, arith, Bool-cases, inl, inr, append-nil,
}
use mathlib.Core.List.{reverse, reverse-cons, reverse-reverse}
use next_deploy.Common.Int.{pos}
use next_deploy.Common.Text.{Text, codes, text_eq, decimal, digits, is_space, trim_left, trim_space}
use next_deploy.Common.FilePath.{split_on}
use next_deploy.Common.FilePath.Elements.{has_byte, split_on-join_two, split_on-one}
use next_deploy.Common.Decimal.{
  is_digit, digits_from, digits_value, positive_int, atoi, leading_digits, one_of, trim_any,
  before_any,
}
use next_deploy.NextCompile.Versions.{
  parse_semver, parse_parts, version_of, patch_of, patch_of_digits,
}

-- A text of digits and dots.
is_plain : Text → Bool
is_plain [] = true
is_plain (c ∷ cs) = (is_digit c || c == b'.') && is_plain cs

-- A text of digits.
is_number : Text → Bool
is_number [] = true
is_number (c ∷ cs) = is_digit c && is_number cs

digits_from-cons :
    (acc d : ℕ) (w : Text)
    → d < 10
    → digits_from acc ((d + b'0') ∷ w) ≡ digits_from (acc * 10 + d) w
unfolding digits_from is_digit
digits_from-cons acc d w h =
    let e : acc * 10 + (d + 48 - 48) ≡ acc * 10 + d = omega arith in ground (arith, h, e)

digits_from-digits :
    (fuel n : ℕ) (w : Text) → n < fuel → digits_from 0 (digits fuel n w) ≡ digits_from n w
unfolding digits digits_from
digits_from-digits zero n w h = absurd (omega (arith, h))
digits_from-digits (suc fuel) n w h =
    let zeroed : 0 * 10 + n ≡ n = omega arith in
    elim (Bool-cases (ltb n 10)) [
      | inl small ↦
          rw small
            (digits_from-cons 0 n w (ground (arith, small)) ∙ ap (λ k. digits_from k w) zeroed)
      | inr large ↦
          let big : 10 ≤ n = ground (arith, large) in
          let next : n / 10 < fuel = omega (arith, big, h) in
          let last : n % 10 < 10 = omega arith in
          let whole : n / 10 * 10 + n % 10 ≡ n = omega arith in
          rw large (
            digits_from-digits fuel (n / 10) ((n % 10 + b'0') ∷ w) next
            ∙ digits_from-cons (n / 10) (n % 10) w last
            ∙ ap (λ k. digits_from k w) whole)
    ]

-- The digits of a number are digits, and at least one.
digits-number : (fuel n : ℕ) (w : Text) → is_number w ≡ true → is_number (digits fuel n w) ≡ true
unfolding digits is_number is_digit
digits-number zero n w h = h
digits-number (suc fuel) n w h =
    let last : n % 10 < 10 = omega arith in
    let written : is_number ((n % 10 + b'0') ∷ w) ≡ true = ground (arith, h, last) in
    let ih = digits-number fuel (n / 10) ((n % 10 + b'0') ∷ w) written in ground (arith, h, ih)

digits-ne_nil : (fuel n c : ℕ) (w : Text) → text_eq (digits fuel n (c ∷ w)) [] ≡ false
unfolding digits text_eq
digits-ne_nil zero n c w = refl
digits-ne_nil (suc fuel) n c w =
    let ih = digits-ne_nil fuel (n / 10) (n % 10 + b'0') (c ∷ w) in ground (arith, ih)

decimal-number : (n : ℕ) → is_number (decimal n) ≡ true
unfolding decimal is_number
decimal-number n = digits-number (suc n) n [] refl

decimal-ne_nil : (n : ℕ) → text_eq (decimal n) [] ≡ false
unfolding decimal digits text_eq
decimal-ne_nil n = let ih = digits-ne_nil n (n / 10) (n % 10 + b'0') [] in ground (arith, ih)

digits_value-text : (t : Text) → text_eq t [] ≡ false → digits_value t ≡ digits_from 0 t
unfolding digits_value text_eq
digits_value-text [] h = ground (arith, h)
digits_value-text (c ∷ cs) h = refl

digits_value-decimal : (n : ℕ) → digits_value (decimal n) ≡ some n
unfolding decimal digits_from
digits_value-decimal n =
    digits_value-text (decimal n) (decimal-ne_nil n) ∙ digits_from-digits (suc n) n [] (omega arith)

atoi-text :
    (t : Text) → is_number t ≡ true → text_eq t [] ≡ false → atoi t ≡ positive_int (digits_value t)
unfolding atoi is_number is_digit text_eq
atoi-text [] h k = ground (arith, k)
atoi-text (c ∷ cs) h k = ground (arith, h)

atoi-decimal : (n : ℕ) → n < 2 ^ 63 → atoi (decimal n) ≡ some (pos n)
unfolding positive_int
atoi-decimal n h =
    atoi-text (decimal n) (decimal-number n) (decimal-ne_nil n)
    ∙ ap positive_int (digits_value-decimal n)
    ∙ ground (arith, h)

leading_digits-number : (t : Text) → is_number t ≡ true → leading_digits t ≡ t
unfolding leading_digits is_number
leading_digits-number [] h = refl
leading_digits-number (c ∷ cs) h = ground (arith, h, leading_digits-number cs)

has_byte-number : (t : Text) → is_number t ≡ true → has_byte b'.' t ≡ false
unfolding has_byte is_number is_digit
has_byte-number [] h = refl
has_byte-number (c ∷ cs) h = ground (arith, h, has_byte-number cs)

number-is_plain : (t u : Text) → is_number t ≡ true → is_plain u ≡ true → is_plain (t ++ u) ≡ true
unfolding is_number is_plain
number-is_plain [] u h k = k
number-is_plain (c ∷ cs) u h k = ground (arith, h, number-is_plain cs u, k)

plain-snoc :
    (t : Text) (c : ℕ)
    → is_plain t ≡ true
    → is_plain (c ∷ []) ≡ true
    → is_plain (t ++ c ∷ []) ≡ true
unfolding is_plain
plain-snoc [] c h k = k
plain-snoc (d ∷ ds) c h k = ground (arith, h, plain-snoc ds c, k)

plain-reverse : (t : Text) → is_plain t ≡ true → is_plain (reverse t) ≡ true
unfolding is_plain
plain-reverse [] h = refl
plain-reverse (c ∷ cs) h =
    rw (reverse-cons c cs)
      (plain-snoc (reverse cs) c (plain-reverse cs (ground (arith, h))) (ground (arith, h)))

trim_left-plain : (t : Text) → is_plain t ≡ true → trim_left t ≡ t
unfolding trim_left is_plain is_space is_digit
trim_left-plain [] h = refl
trim_left-plain (c ∷ cs) h = ground (arith, h)

trim_space-plain : (t : Text) → is_plain t ≡ true → trim_space t ≡ t
unfolding trim_space
trim_space-plain t h =
    rw (trim_left-plain t h, trim_left-plain (reverse t) (plain-reverse t h)) (reverse-reverse t)

trim_any-plain : (t : Text) → is_plain t ≡ true → trim_any (codes "^~>= ") t ≡ t
unfolding trim_any one_of is_plain is_digit
trim_any-plain [] h = refl
trim_any-plain (c ∷ cs) h = ground (arith, h)

before_any-plain : (t : Text) → is_plain t ≡ true → before_any (codes "-+") t ≡ t
unfolding before_any one_of is_plain is_digit
before_any-plain [] h = refl
before_any-plain (c ∷ cs) h = ground (arith, h, before_any-plain cs)

-- The text of a version.
pub print_version : ℕ → ℕ → ℕ → Text
print_version major minor patch = decimal major ++ b'.' ∷ (decimal minor ++ b'.' ∷ decimal patch)

print_version-plain : (major minor patch : ℕ) → is_plain (print_version major minor patch) ≡ true
unfolding print_version is_plain is_digit decimal
print_version-plain major minor patch =
    let third : is_plain (decimal patch) ≡ true =
      rw (sym (append-nil (decimal patch)))
        (number-is_plain (decimal patch) [] (decimal-number patch) refl) in
    number-is_plain (decimal major) (b'.' ∷ (decimal minor ++ b'.' ∷ decimal patch))
      (decimal-number major)
      (number-is_plain (decimal minor) (b'.' ∷ decimal patch) (decimal-number minor) third)

split_on-print_version :
    (major minor patch : ℕ)
    → split_on b'.' (print_version major minor patch)
      ≡ decimal major ∷ decimal minor ∷ decimal patch ∷ []
unfolding print_version
split_on-print_version major minor patch =
    split_on-join_two b'.' (decimal major) (decimal minor ++ b'.' ∷ decimal patch)
      (has_byte-number (decimal major) (decimal-number major))
    ∙ ap (λ ts. decimal major ∷ ts)
        (split_on-join_two b'.' (decimal minor) (decimal patch)
            (has_byte-number (decimal minor) (decimal-number minor))
          ∙ ap (λ ts. decimal minor ∷ ts)
              (split_on-one b'.' (decimal patch)
                (has_byte-number (decimal patch) (decimal-number patch))))

front-ne_nil : (t u : Text) → text_eq t [] ≡ false → text_eq (t ++ u) [] ≡ false
unfolding text_eq
front-ne_nil [] u h = ground (arith, h)
front-ne_nil (c ∷ cs) u h = refl

patch_of-decimal : (n : ℕ) → n < 2 ^ 63 → patch_of (decimal n ∷ []) ≡ n
unfolding patch_of patch_of_digits
patch_of-decimal n h =
    rw (leading_digits-number (decimal n) (decimal-number n), digits_value-decimal n)
      (ground (arith, h))

-- A version of three numbers that fit an int is read back from its text.
pub parse_semver-print_version :
    (major minor patch : ℕ)
    → major < 2 ^ 63
    → minor < 2 ^ 63
    → patch < 2 ^ 63
    → parse_semver (print_version major minor patch)
      ≡ some (record {
        major = pos major;
        minor = pos minor;
        patch = patch;
        raw = print_version major minor patch;
      })
unfolding parse_semver parse_parts version_of
parse_semver-print_version major minor patch h k l =
    let t = print_version major minor patch in
    let plain = print_version-plain major minor patch in
    let solid : text_eq t [] ≡ false =
      unfold print_version in front-ne_nil (decimal major) _ (decimal-ne_nil major) in
    rw
      (
        trim_space-plain t plain,
        trim_any-plain t plain,
        solid,
        before_any-plain t plain,
        split_on-print_version major minor patch,
      )
      (rw (atoi-decimal major h, atoi-decimal minor k, patch_of-decimal patch l) refl)
