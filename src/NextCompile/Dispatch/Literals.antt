-- ===== src/NextCompile/Dispatch/Literals.antt =====
-- The string literals of the dispatch module, read back as JavaScript reads them (jsStringLiteral,
-- shared/nextcompile/dispatch.go).
use next_deploy.Common.{
  ℕ, ◌≡◌, refl, Option, none, some, [], ◌∷◌, ◌++◌, ◌==◌, if◌then◌else◌, arith, append_assoc, ◌||◌,
}
use next_deploy.Common.Text.{Text}
use next_deploy.NextCompile.Dispatch.{js_char, js_chars, js_string_literal}

keep : ℕ → Option (Text × Text) → Option (Text × Text)
keep c none = none
keep c (some (t, rest)) = some (c ∷ t, rest)

-- The character that a backslash and `c` stand for.
pub unescaped : ℕ → ℕ
unescaped c = if c == b'n' then 10 else if c == b'r' then 13 else c

-- A string after its opening quote, with what follows the closing one; a line break ends the reading.
pub read_js_string : Text → Option (Text × Text)
unfolding keep unescaped
read_js_string [] = none
read_js_string (c ∷ []) = if c == b'"' then some ([], []) else none
read_js_string (c ∷ d ∷ cs) =
    let escaped = keep (unescaped d) (read_js_string cs) in
    let plain = keep c (read_js_string (d ∷ cs)) in
    if c == b'"'
    then some ([], d ∷ cs)
    else if c == b'\\'
    then escaped
    else if c == 10 || c == 13
    then none
    else plain

read-js_char :
    (c d : ℕ) (ds : Text) → read_js_string (js_char c ++ d ∷ ds) ≡ keep c (read_js_string (d ∷ ds))
unfolding read_js_string js_char
read-js_char c d ds = ground arith

read_onto :
    (c : ℕ) (t rest : Text)
    → read_js_string (js_char c ++ (t ++ b'"' ∷ rest)) ≡ keep c (read_js_string (t ++ b'"' ∷ rest))
read_onto c [] rest = read-js_char c b'"' rest
read_onto c (d ∷ t) rest = read-js_char c d (t ++ b'"' ∷ rest)

read_closed : (rest : Text) → read_js_string (b'"' ∷ rest) ≡ some ([], rest)
unfolding read_js_string
read_closed [] = refl
read_closed (c ∷ rest) = refl

read-js_chars : (s rest : Text) → read_js_string (js_chars s ++ b'"' ∷ rest) ≡ some (s, rest)
unfolding js_chars keep
read-js_chars [] rest = read_closed rest
read-js_chars (c ∷ s) rest =
    rw
      (
        append_assoc (js_char c) (js_chars s) (b'"' ∷ rest),
        read_onto c (js_chars s) rest,
        read-js_chars s rest,
      )
      refl

-- A literal at the start of a text.
pub read_js_literal : Text → Option (Text × Text)
read_js_literal [] = none
read_js_literal (c ∷ cs) = if c == b'"' then read_js_string cs else none

-- JavaScript reads the literal of a text as that text, and the literal ends where it was closed.
pub read_js_literal-js_string_literal :
    (s rest : Text) → read_js_literal (js_string_literal s ++ rest) ≡ some (s, rest)
unfolding read_js_literal js_string_literal
read_js_literal-js_string_literal s rest =
    rw (append_assoc (js_chars s) (b'"' ∷ []) rest) (read-js_chars s rest)
