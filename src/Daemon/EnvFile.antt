-- ===== src/Daemon/EnvFile.antt =====
-- The environment file of a release (daemon/internal/daemon/secrets_handler.go): quoteEnvValue, and the
-- lines that renderEnvFile writes.
pub mod RoundTrip
mod Tests
use next_deploy.Common.{ℕ, Bool, Option, none, some, List, [], ◌∷◌, ◌++◌, ◌==◌, map, if◌then◌else◌}
use next_deploy.Common.Text.{Text, text_eq}
use next_deploy.Common.Map.{Map, get, put}
use next_deploy.Common.Sort.{sort}

-- The replacer, which replaces single bytes.
unfoldable pub escape : ℕ → Text
escape c =
    if c == b'\\'
    then b'\\' ∷ b'\\' ∷ []
    else if c == b'"'
    then b'\\' ∷ b'"' ∷ []
    else if c == 10
    then b'\\' ∷ b'n' ∷ []
    else if c == 13
    then b'\\' ∷ b'r' ∷ []
    else c ∷ []

unfoldable pub escape_all : Text → Text
unfolding escape
escape_all [] = []
escape_all (c ∷ cs) = escape c ++ escape_all cs

unfoldable pub quote_env_value : Text → Text
quote_env_value v = b'"' ∷ (escape_all v ++ b'"' ∷ [])

-- `fmt.Fprintf(&b, "%s=%s\n", k, quoteEnvValue(secrets[k]))`
unfoldable pub env_line : Text → Text → Text
env_line k v = k ++ (b'=' ∷ (quote_env_value v ++ 10 ∷ []))

abbrev pub value_of : Option Text → Text
value_of none = []
value_of (some v) = v

unfoldable pub env_lines : Map Text → List Text → Text
env_lines m [] = []
env_lines m (k ∷ ks) = env_line k (value_of (get k m)) ++ env_lines m ks

abbrev pub keys : Map Text → List Text
keys [] = []
keys ((k, v) ∷ m) = k ∷ keys m

-- What renderEnvFile writes for the map `secrets`.
unfoldable pub render_env : Map Text → Text
render_env m = env_lines m (sort (keys m))

-- `for k, v := range extra { if v != "" { secrets[k] = v } }`
unfoldable pub merge_extra : Map Text → Map Text → Map Text
merge_extra [] m = m
merge_extra ((k, v) ∷ extra) m = merge_extra extra (if text_eq v [] then m else put k v m)
