-- ===== src/EnvStore.antt =====
-- The environment store (shared/envstore/env.go). The contents of a file and the environment of the
-- process are given; `zero` is the zero value of the type that the store holds.
pub mod Parsed
mod Tests
use next_deploy.Common.{
  ℕ, Bool, true, false, not, ◌&&◌, ◌||◌, Option, none, some, List, [], ◌∷◌, ◌++◌, ◌==◌, ltb, length,
  if◌then◌else◌,
}
use mathlib.Core.List.{reverse}
use next_deploy.Common.Text.{Text, codes, text_eq, has_prefix, trim_space}
use next_deploy.Common.Map.{Map, get, put, remove}
use next_deploy.Common.FilePath.{split_on}

-- The part before the first `=` and the one behind it (strings.SplitN of two parts).
unfoldable pub onto_key : ℕ → Option (Text × Text) → Option (Text × Text)
onto_key c none = none
onto_key c (some (k, v)) = some (c ∷ k, v)

unfoldable pub cut_equals : Text → Option (Text × Text)
unfolding onto_key
cut_equals [] = none
cut_equals (c ∷ cs) =
    let rest = cut_equals cs in if c == b'=' then some ([], cs) else onto_key c rest

unfoldable pub set_var : Option (Text × Text) → Map Text → Map Text
set_var none env = env
set_var (some (k, v)) env = put (trim_space k) (trim_space v) env

-- One line of a file. The carriage return at its end, which bufio.Scanner takes off, is a space.
unfoldable pub read_line : Text → Map Text → Map Text
unfolding set_var
read_line raw env =
    let line = trim_space raw in
    if text_eq line [] || has_prefix line (codes "#") then env else set_var (cut_equals line) env

unfoldable pub read_lines : List Text → Map Text → Map Text
read_lines [] env = env
read_lines (l ∷ ls) env = read_lines ls (read_line l env)

-- bufio.Scanner refuses a line of 64 KiB or more.
is_too_long : List Text → Bool
is_too_long [] = false
is_too_long (l ∷ ls) = not (ltb (length l) 65536) || is_too_long ls

-- ReadEnvFile, for the contents of the file, or none if it cannot be opened.
unfoldable pub read_env_file : Option Text → Option (Map Text)
unfolding is_too_long
read_env_file none = none
read_env_file (some content) =
    if is_too_long (split_on 10 content) then none else some (read_lines (split_on 10 content) [])

pub record Store (T : Type 0) : Type 0 where
  pub entries : Map T
  pub filename : Text

pub data StoreError : Type 0 where
  exists_already not_found unreadable : StoreError

pub data StoreResult (A : Type 0) : Type 0 where
  ok : A → StoreResult A
  err : StoreError → StoreResult A

looked_up : Option Text → StoreResult Text
looked_up none = err not_found
looked_up (some v) = ok v

var_in : Text → Option (Map Text) → StoreResult Text
unfolding looked_up
var_in key none = err unreadable
var_in key (some env) = looked_up (get key env)

var_of : Text → (Text → Option Text) → Text → Option Text → StoreResult Text
unfolding var_in
var_of key files filename (some v) = ok v
var_of key files filename none =
    if text_eq filename [] then err not_found else var_in key (read_env_file (files filename))

module _ {T : Type 0} where
  create_as : Text → T → Option T → Store T → StoreResult (Store T)
  create_as key value (some old) s = err exists_already
  create_as key value none s = ok (record s { entries = put key value s.entries })

  unfoldable pub create : Text → T → Store T → StoreResult (Store T)
  unfolding create_as
  create key value s = create_as key value (get key s.entries) s

  found : Option T → StoreResult T
  found none = err not_found
  found (some value) = ok value

  unfoldable pub read : Text → Store T → StoreResult T
  unfolding found
  read key s = found (get key s.entries)

  update_as : Text → T → Option T → Store T → StoreResult (Store T)
  update_as key value none s = err not_found
  update_as key value (some old) s = ok (record s { entries = put key value s.entries })

  unfoldable pub update : Text → T → Store T → StoreResult (Store T)
  unfolding update_as
  update key value s = update_as key value (get key s.entries) s

  delete_as : Text → Option T → Store T → StoreResult (Store T)
  delete_as key none s = err not_found
  delete_as key (some old) s = ok (record s { entries = remove key s.entries })

  unfoldable pub delete : Text → Store T → StoreResult (Store T)
  unfolding delete_as
  delete key s = delete_as key (get key s.entries) s

  -- WithEnvFile keeps the keys of the file, each with the zero value.
  unfoldable pub zeroed : T → Map Text → Map T → Map T
  zeroed zero [] entries = entries
  zeroed zero ((k, v) ∷ env) entries = zeroed zero env (put k zero entries)

  with_read : T → Text → Option (Map Text) → Store T → StoreResult (Store T)
  with_read zero filename none s = err unreadable
  with_read zero filename (some env) s =
      ok (record { entries = zeroed zero env s.entries; filename = filename })

  unfoldable pub with_env_file : T → (Text → Option Text) → Text → Store T → StoreResult (Store T)
  unfolding with_read
  with_env_file zero files filename s = with_read zero filename (read_env_file (files filename)) s

  -- GetEnv: the environment of the process first.
  unfoldable pub get_env :
      (Text → Option Text) → (Text → Option Text) → Text → Store T → StoreResult Text
  unfolding var_of
  get_env process files key s = var_of key files s.filename (process key)
