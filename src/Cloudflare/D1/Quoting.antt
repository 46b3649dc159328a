-- ===== src/Cloudflare/D1/Quoting.antt =====
-- The quoting of names in SQL (sqlQuote, cli/internal/serverless/cloudflare_d1.go), read back as SQL
-- reads a string: two quotes within it stand for one.
use next_deploy.Common.{
  ℕ, ◌≡◌, ◌≢◌, refl, Option, none, some, [], ◌∷◌, ◌++◌, ◌==◌, if◌then◌else◌, arith, Bool-cases, inl,
  inr, append_assoc,
}
use next_deploy.Common.Text.{Text}
use next_deploy.Cloudflare.D1.{sql_quote, double_quotes}

keep : ℕ → Option (Text × Text) → Option (Text × Text)
keep c none = none
keep c (some (t, rest)) = some (c ∷ t, rest)

-- A string after its opening quote, and what follows the closing one.
pub read_sql_string : Text → Option (Text × Text)
unfolding keep
read_sql_string [] = none
read_sql_string (c ∷ []) = if c == b'\'' then some ([], []) else none
read_sql_string (c ∷ d ∷ cs) =
    let escaped = keep b'\'' (read_sql_string cs) in
    let plain = keep c (read_sql_string (d ∷ cs)) in
    if c == b'\'' then (if d == b'\'' then escaped else some ([], d ∷ cs)) else plain

-- `rest` does not go on with a quote.
abbrev pub IsApart : Text → Type 0
IsApart [] = Unit
IsApart (c ∷ cs) = c ≢ b'\''

read_end : (rest : Text) → IsApart rest → read_sql_string (b'\'' ∷ rest) ≡ some ([], rest)
unfolding read_sql_string
read_end [] h = refl
read_end (d ∷ cs) h = ground arith

read_plain :
    (c : ℕ) (cs : Text) → c ≢ b'\'' → read_sql_string (c ∷ cs) ≡ keep c (read_sql_string cs)
unfolding read_sql_string
read_plain c [] h = ground arith
read_plain c (d ∷ cs) h = ground arith

read_escaped :
    (c : ℕ) (cs : Text) → c ≡ b'\'' → read_sql_string (c ∷ c ∷ cs) ≡ keep c (read_sql_string cs)
unfolding read_sql_string
read_escaped c cs h = ground arith

read-double_quotes :
    (s rest : Text)
    → IsApart rest
    → read_sql_string (double_quotes s ++ b'\'' ∷ rest) ≡ some (s, rest)
unfolding double_quotes keep
read-double_quotes [] rest h = read_end rest h
read-double_quotes (c ∷ s) rest h =
    let ih = read-double_quotes s rest h in
    let tail = double_quotes s ++ b'\'' ∷ rest in
    elim (Bool-cases (c == b'\'')) [
      | inl quote ↦ rw quote (ground (arith, quote, read_escaped c tail, ih))
      | inr other ↦ rw other (ground (arith, other, read_plain c tail, ih))
    ]

-- A string literal at the start of a text.
pub read_literal : Text → Option (Text × Text)
read_literal [] = none
read_literal (c ∷ cs) = if c == b'\'' then read_sql_string cs else none

-- What is quoted for a statement is read back by SQL as it was, and the literal ends where the quoting
-- ends: no name, whatever quotes are in it, goes on into the statement. What follows must not be a
-- quote.
pub read_literal-sql_quote :
    (s rest : Text) → IsApart rest → read_literal (sql_quote s ++ rest) ≡ some (s, rest)
unfolding read_literal sql_quote
read_literal-sql_quote s rest h =
    rw (append_assoc (double_quotes s) (b'\'' ∷ []) rest) (read-double_quotes s rest h)
