-- ===== src/NextCompile/Dispatch/Groups.antt =====
-- The capture groups of the patterns of routes (routeToRegex, shared/nextcompile/dispatch.go): the
-- dispatcher pairs the groups of a match with the names of the parameters by their order.
use next_deploy.Common.{
  ℕ, ◌+◌, ◌≡◌, refl, ap, ◌∙◌, Bool, true, not, ◌&&◌, ◌||◌, List, [], ◌∷◌, ◌++◌, ◌==◌, length,
  length-append, if◌then◌else◌, arith, All, Bool-cases, inl, inr,
}
use next_deploy.Common.Text.{Text, codes}
use next_deploy.Common.FilePath.Elements.{has_byte, take-length_append}
use next_deploy.NextCompile.Dispatch.{
  is_meta, escape_regex_literal, is_optional, is_catch_all, is_single, name_in, add_segment,
  add_segments, segments, route_to_regex,
}

-- Where a reader of a regular expression is: in a class such as `[^/]`, behind a backslash, or behind
-- an open parenthesis.
pub data Mode : Type 0 where
  normal escaped class class_escaped opened : Mode

-- The mode after a character outside of classes.
after_normal : ℕ → Mode
after_normal c =
    if c == b'\\'
    then escaped
    else if c == b'['
    then class
    else if c == b'('
    then opened
    else normal

-- How many capture groups a character adds, and the mode after it. `(?` opens no capture group here.
pub step : Mode → ℕ → ℕ × Mode
unfolding after_normal
step normal c = (0, after_normal c)
step escaped c = (0, normal)
step class c = (0, if c == b'\\' then class_escaped else if c == b']' then normal else class)
step class_escaped c = (0, class)
step opened c = if c == b'?' then (0, normal) else (1, after_normal c)

pub run : Mode → Text → ℕ × Mode
run m [] = (0, m)
run m (c ∷ cs) = let now = step m c in let later = run now.1 cs in (now.0 + later.0, later.1)

-- The capture groups of an expression.
pub capture_groups : Text → ℕ
unfolding run
capture_groups pattern = (run normal pattern).0

run-append :
    (m : Mode) (a b : Text)
    → run m (a ++ b) ≡ ((run m a).0 + (run (run m a).1 b).0, (run (run m a).1 b).1)
unfolding run
run-append m [] b = ground arith
run-append m (c ∷ a) b = ground (arith, run-append (step m c).1 a b)

-- What `a`, that holds `k` groups and ends in the normal mode, and such a `b` hold together.
run_both :
    (k l : ℕ) (a b : Text)
    → run normal a ≡ (k, normal)
    → run normal b ≡ (l, normal)
    → run normal (a ++ b) ≡ (k + l, normal)
run_both k l a b h g = rw (run-append normal a b, h, g) refl

-- A literal segment has no bracket and no backslash.
abbrev pub is_plain : Text → Bool
is_plain part = not (has_byte b'[' part) && not (has_byte b'\\' part)

run-escape_regex_literal :
    (part : Text) → is_plain part ≡ true → run normal (escape_regex_literal part) ≡ (0, normal)
unfolding run step after_normal escape_regex_literal has_byte is_meta
run-escape_regex_literal [] h = refl
run-escape_regex_literal (c ∷ part) h = ground (arith, run-escape_regex_literal part)

-- A segment is a parameter, or a literal without brackets and backslashes.
abbrev pub is_regular : Text → Bool
is_regular part = is_optional part || is_catch_all part || is_single part || is_plain part

-- The expression so far has a group for each name.
abbrev Paired : Text × List Text → Type 0
Paired built = run normal built.0 ≡ (length built.1, normal)

named :
    (written extra name : Text) (names : List Text)
    → Paired (written, names)
    → run normal extra ≡ (1, normal)
    → Paired (written ++ extra, names ++ name ∷ [])
named written extra name names h k =
    rw (length-append names (name ∷ [])) (run_both (length names) 1 written extra h k)

unnamed :
    (written extra : Text) (names : List Text)
    → Paired (written, names)
    → run normal extra ≡ (0, normal)
    → Paired (written ++ extra, names)
unnamed written extra names h k =
    run_both (length names) 0 written extra h k
    ∙ (let e : length names + 0 ≡ length names = omega arith in rw e refl)

add_segment-Paired :
    (part written : Text) (names : List Text)
    → is_regular part ≡ true
    → Paired (written, names)
    → Paired (add_segment part written names)
unfolding add_segment run step after_normal
add_segment-Paired part written names h k =
    let opened = unnamed written (codes "\\/") names k refl in
    elim (Bool-cases (is_optional part)) [
      | inl optional ↦
          rw (optional, take-length_append written (codes "\\/"))
            (named written (codes "(?:\\/(.+?))?") (name_in 5 2 part) names k refl)
      | inr not_optional ↦ elim (Bool-cases (is_catch_all part)) [
        | inl catch_all ↦
            rw (not_optional, catch_all)
              (named (written ++ codes "\\/") (codes "(.+?)") (name_in 4 1 part) names opened refl)
        | inr not_catch_all ↦ elim (Bool-cases (is_single part)) [
          | inl single ↦
              rw (not_optional, not_catch_all, single)
                (named (written ++ codes "\\/") (codes "([^/]+)") (name_in 1 1 part) names opened
                  refl)
          | inr literal ↦
              let plain : is_plain part ≡ true = rw (not_optional, not_catch_all, literal) at h in
              rw (not_optional, not_catch_all, literal)
                (unnamed (written ++ codes "\\/") (escape_regex_literal part) names opened
                  (run-escape_regex_literal part plain))
        ]
      ]
    ]

add_segments-Paired :
    (parts : List Text) (built : Text × List Text)
    → All (λ part. is_regular part ≡ true) parts
    → Paired built
    → Paired (add_segments parts built)
unfolding add_segments
add_segments-Paired [] built h k = k
add_segments-Paired (part ∷ parts) built h k =
    add_segments-Paired parts (add_segment part built.0 built.1) h.1
      (add_segment-Paired part built.0 built.1 h.0 k)

-- The pattern of a route has as many capture groups as the route has parameter names, if no literal
-- segment has a bracket or a backslash.
pub route_to_regex-capture_groups :
    (route : Text)
    → All (λ part. is_regular part ≡ true) (segments route)
    → capture_groups (route_to_regex route).0 ≡ length (route_to_regex route).1
unfolding route_to_regex capture_groups run step after_normal
route_to_regex-capture_groups route h =
    let built = add_segments (segments route) (codes "/^", []) in
    let paired = add_segments-Paired (segments route) (codes "/^", []) h refl in
    ap (λ (p : ℕ × Mode). p.0) (unnamed built.0 (codes "\\/?$/") built.1 paired refl)
