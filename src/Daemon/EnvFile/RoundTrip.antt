-- ===== src/Daemon/EnvFile/RoundTrip.antt =====
-- The environment file that renderEnvFile of daemon/internal/daemon/secrets_handler.go writes, read by
-- the rules for double quotes that systemd documents for EnvironmentFile: a backslash within the quotes
-- is taken off before a backslash, a quote, a dollar sign or a backquote, joins two lines before a line
-- break, and stays before any other byte.
use next_deploy.Common.{
  ℕ, ◌≡◌, ◌≢◌, refl, Bool, true, false, ◌&&◌, ◌||◌, not, Option, none, some, List, [], ◌∷◌, ◌++◌,
  ◌==◌, leb, map, append_assoc, append-nil, if◌then◌else◌, arith, All,
}
use next_deploy.Common.Text.{Text, text_eq, text_eq_refl}
use next_deploy.Common.Map.{Map, get}
use next_deploy.Common.Sort.{sort}
use next_deploy.Daemon.EnvFile.{
  escape, escape_all, quote_env_value, env_line, env_lines, value_of, keys, render_env,
}

-- Where a reader stands: in a name, after `=`, within the quotes, after a backslash, after the
-- closing quote, or at a fault.
pub data Mode : Type 0 where
  in_name before_quote in_quotes after_backslash closed fault : Mode

pub record Reader : Type 0 where
  pub mode : Mode
  pub name : Text
  pub value : Text
  pub bindings : List (Text × Text)

abbrev at : Mode → Text → Text → List (Text × Text) → Reader
at m n v bs = record { mode = m; name = n; value = v; bindings = bs }

-- A letter, a digit or an underscore.
abbrev pub is_name_byte : ℕ → Bool
is_name_byte c =
    (leb b'A' c && leb c b'Z')
    || (leb b'a' c && leb c b'z')
    || (leb b'0' c && leb c b'9')
    || c == b'_'

-- What a backslash and a byte stand for within the quotes.
unfoldable unescape : ℕ → Text
unescape c =
    if c == b'\\' || c == b'"' || c == b'$' || c == b'`'
    then c ∷ []
    else if c == 10
    then []
    else b'\\' ∷ c ∷ []

unfoldable step : Mode → ℕ → Text → Text → List (Text × Text) → Reader
unfolding unescape
step in_name c n v bs =
    if is_name_byte c
    then at in_name (n ++ c ∷ []) v bs
    else if c == b'=' && not (text_eq n [])
    then at before_quote n v bs
    else at fault n v bs
step before_quote c n v bs = if c == b'"' then at in_quotes n v bs else at fault n v bs
step in_quotes c n v bs =
    if c == b'\\'
    then at after_backslash n v bs
    else if c == b'"'
    then at closed n v bs
    else at in_quotes n (v ++ c ∷ []) bs
step after_backslash c n v bs = at in_quotes n (v ++ unescape c) bs
step closed c n v bs = if c == 10 then at in_name [] [] (bs ++ (n, v) ∷ []) else at fault n v bs
step fault c n v bs = at fault n v bs

unfoldable read : Text → Reader → Reader
read [] r = r
read (c ∷ cs) r = read cs (step r.mode c r.name r.value r.bindings)

unfoldable complete : Mode → Text → List (Text × Text) → Option (List (Text × Text))
complete in_name n bs = if text_eq n [] then some bs else none
complete _ n bs = none

-- The variables that a file sets, in order; `none` for a file with a fault.
unfoldable pub read_env : Text → Option (List (Text × Text))
unfolding read complete step
read_env t = let r = read t (at in_name [] [] []) in complete r.mode r.name r.bindings

read-append : (a b : Text) (r : Reader) → read (a ++ b) r ≡ read b (read a r)
unfolding read
read-append [] b r = refl
read-append (c ∷ cs) b r = read-append cs b (step r.mode c r.name r.value r.bindings)

-- A value without line breaks.
abbrev pub IsOneLine : Text → Type 0
IsOneLine = All (λ c. (c == 10 || c == 13) ≡ false)

read-escape :
    (c : ℕ) (n v : Text) (bs : List (Text × Text))
    → (c == 10 || c == 13) ≡ false
    → read (escape c) (at in_quotes n v bs) ≡ at in_quotes n (v ++ c ∷ []) bs
unfolding read escape step unescape
read-escape c n v bs h = ground (arith, h)

read-escape_all :
    (w n v : Text) (bs : List (Text × Text))
    → IsOneLine w
    → read (escape_all w) (at in_quotes n v bs) ≡ at in_quotes n (v ++ w) bs
unfolding escape_all read
read-escape_all [] n v bs h = rw append-nil refl
read-escape_all (c ∷ cs) n v bs h =
    rw
      (
        read-append,
        read-escape c n v bs h.0,
        read-escape_all cs n (v ++ c ∷ []) bs h.1,
        append_assoc,
      )
      refl

abbrev AllNameBytes : Text → Type 0
AllNameBytes = All (λ c. is_name_byte c ≡ true)

abbrev pub IsName : Text → Type 0
IsName n = (n ≢ []) × AllNameBytes n

read-name :
    (k n v : Text) (bs : List (Text × Text))
    → AllNameBytes k
    → read k (at in_name n v bs) ≡ at in_name (n ++ k) v bs
unfolding read step
read-name [] n v bs names = rw append-nil refl
read-name (c ∷ cs) n v bs names =
    rw (names.0, read-name cs (n ++ c ∷ []) v bs names.1, append_assoc) refl

read-equals :
    (n v : Text) (bs : List (Text × Text))
    → n ≢ []
    → read (b'=' ∷ b'"' ∷ []) (at in_name n v bs) ≡ at in_quotes n v bs
unfolding read step text_eq
read-equals [] v bs ne = absurd (ne refl)
read-equals (c ∷ n) v bs ne = refl

read-close :
    (n v : Text) (bs : List (Text × Text))
    → read (b'"' ∷ 10 ∷ []) (at in_quotes n v bs) ≡ at in_name [] [] (bs ++ (n, v) ∷ [])
unfolding read step
read-close n v bs = refl

env_line_split :
    (k v : Text) → env_line k v ≡ k ++ ((b'=' ∷ b'"' ∷ []) ++ (escape_all v ++ (b'"' ∷ 10 ∷ [])))
unfolding env_line quote_env_value
env_line_split k v = rw append_assoc refl

read-env_line :
    (k v : Text) (bs : List (Text × Text))
    → IsName k
    → IsOneLine v
    → read (env_line k v) (at in_name [] [] bs) ≡ at in_name [] [] (bs ++ (k, v) ∷ [])
read-env_line k v bs h one =
    rw
      (
        env_line_split k v,
        read-append,
        read-name k [] [] bs h.1,
        read-append,
        read-equals k [] bs h.0,
        read-append,
        read-escape_all v k [] bs one,
        read-close,
      )
      refl

abbrev binding : Map Text → Text → Text × Text
binding m k = (k, value_of (get k m))

read-env_lines :
    (m : Map Text) (ks : List Text) (bs : List (Text × Text))
    → All IsName ks
    → All (λ k. IsOneLine (value_of (get k m))) ks
    → read (env_lines m ks) (at in_name [] [] bs) ≡ at in_name [] [] (bs ++ map (binding m) ks)
unfolding env_lines read
read-env_lines m [] bs h one = rw append-nil refl
read-env_lines m (k ∷ ks) bs h one =
    rw
      (
        read-append,
        read-env_line k (value_of (get k m)) bs h.0 one.0,
        read-env_lines m ks (bs ++ binding m k ∷ []) h.1 one.1,
        append_assoc,
      )
      refl

-- The file that is rendered from secrets whose keys are names and whose values have no line breaks sets
-- each key to its value, as the rules for double quotes read it, and nothing else, in the order of the
-- keys.
pub read_env-render_env :
    (m : Map Text)
    → All IsName (sort (keys m))
    → All (λ k. IsOneLine (value_of (get k m))) (sort (keys m))
    → read_env (render_env m) ≡ some (map (λ k. (k, value_of (get k m))) (sort (keys m)))
unfolding read_env render_env complete text_eq
read_env-render_env m h one = rw (read-env_lines m (sort (keys m)) [] h one) refl

env_line-append : (a k v : Text) → env_line (a ++ k) v ≡ a ++ env_line k v
unfolding env_line
env_line-append a k v = append_assoc a k (b'=' ∷ (quote_env_value v ++ 10 ∷ []))

-- A key with a line break, which nothing refuses, writes a line of its own: one secret sets two
-- variables.
pub key_injects :
    (j w k v : Text)
    → IsName j
    → IsName k
    → IsOneLine w
    → IsOneLine v
    → read_env (render_env ((env_line j w ++ k, v) ∷ [])) ≡ some ((j, w) ∷ (k, v) ∷ [])
unfolding read_env render_env env_lines get sort complete text_eq
key_injects j w k v hj hk one_w one_v =
    rw
      (
        text_eq_refl (env_line j w ++ k),
        append-nil,
        env_line-append,
        read-append,
        read-env_line j w [] hj one_w,
        read-env_line k v ((j, w) ∷ []) hk one_v,
      )
      refl
