-- ===== src/Daemon/Caddy.antt =====
-- The Caddy files (daemon/internal/daemon/caddy_manager.go): each app's fragment in the import
-- directory, validated in a sandbox before it is committed, and the main Caddyfile. `caddy validate`
-- and the answers of the file system are parameters; the text of a fragment is what GenerateCaddyfile
-- gives.
pub mod Commit
pub mod Main
mod Tests
use next_deploy.Common.{
  ℕ, zero, suc, ◌-◌, Bool, true, false, ◌&&◌, ◌||◌, not, Option, none, some, List, [], ◌∷◌, ◌++◌,
  ◌==◌, leb, if◌then◌else◌, length,
}
use next_deploy.Common.Text.{Text, codes, text_eq, has_prefix, has_suffix, contains, trim_space}
use next_deploy.Common.Map.{Map, get, put, remove}

-- The main Caddyfile, and the files of the import directory by name.
pub record CaddyFiles : Type 0 where
  pub main : Option Text
  pub fragments : Map Text

pub data CaddyError : Type 0 where
  bad_app_name no_sandbox staging rejected installing unreadable_main unwritable_main : CaddyError
  unremovable invalid_config reload_failed : CaddyError

pub record CaddyHost : Type 0 where
  pub config_dir : Text
  pub sandbox : Option Text  -- os.MkdirTemp
  pub is_dir : Text → Bool
  pub readable : Text → Bool  -- of a fragment, which is then written to the sandbox
  pub main_readable : Bool
  pub staged : Bool
  pub main_staged : Bool
  pub valid : Text → Map Text → Bool  -- caddy validate, on a main Caddyfile and the fragments it imports
  pub installed : Bool  -- the temporary file is created, written, closed and renamed
  pub main_written : Bool
  pub removed : Bool
  pub reload : Bool  -- systemctl reload caddy
  pub fallback : Bool  -- caddy reload

is_name_byte : ℕ → Bool
is_name_byte c =
    (leb b'a' c && leb c b'z')
    || (leb b'A' c && leb c b'Z')
    || (leb b'0' c && leb c b'9')
    || c == b'_'
    || c == b'-'

all_name_bytes : Text → Bool
unfolding is_name_byte
all_name_bytes [] = true
all_name_bytes (c ∷ cs) = let rest = all_name_bytes cs in is_name_byte c && rest

-- `^[a-zA-Z0-9_-]+$`
unfoldable pub sanitize_app_name : Text → Bool
unfolding all_name_bytes
sanitize_app_name name = not (text_eq name []) && all_name_bytes name

unfoldable pub fragment_name : Text → Text
fragment_name app = app ++ codes ".caddy"

-- The occurrences of `old` from the left; the first argument counts what is still to be skipped.
replace_from : Text → Text → ℕ → Text → Text
replace_from old new skipped [] = []
replace_from old new (suc skipped) (c ∷ cs) = replace_from old new skipped cs
replace_from old new zero (c ∷ cs) =
    let kept = replace_from old new 0 cs in
    let past = replace_from old new (length old - 1) cs in
    if has_prefix (c ∷ cs) old then new ++ past else c ∷ kept

-- strings.ReplaceAll(s, old, new), for an `old` that is not empty.
unfoldable pub replace_all : Text → Text → Text → Text
unfolding replace_from
replace_all s old new = replace_from old new 0 s

unfoldable pub import_line : Text → Text
import_line dir = codes "import " ++ (dir ++ (codes "/*.caddy" ++ 10 ∷ []))

abbrev pub coraza_global : Text
coraza_global = codes "{\n\torder coraza_waf first\n}\n\n"

-- strings.Split(s, "\n")
onto : ℕ → List Text → List Text
onto c [] = (c ∷ []) ∷ []
onto c (line ∷ lines) = (c ∷ line) ∷ lines

unfoldable pub split_lines : Text → List Text
unfolding onto
split_lines [] = [] ∷ []
split_lines (c ∷ cs) = let rest = split_lines cs in if c == 10 then [] ∷ rest else onto c rest

-- strings.Join(lines, "\n")
unfoldable pub join_lines : List Text → Text
join_lines [] = []
join_lines (line ∷ []) = line
join_lines (line ∷ next ∷ lines) = line ++ 10 ∷ join_lines (next ∷ lines)

-- The loop that leaves out the default site, up to its first closing brace.
unfoldable pub strip_default : Bool → List Text → List Text
strip_default inside [] = []
strip_default inside (line ∷ lines) =
    let opened = strip_default true lines in
    let outside = strip_default false lines in
    let trimmed = trim_space line in
    if text_eq trimmed (codes ":80 {")
    then opened
    else if inside
    then (if text_eq trimmed (codes "}") then outside else opened)
    else line ∷ outside

without_default_site : Text → Text
without_default_site t =
    if contains t (codes ":80 {") && contains t (codes "root * /usr/share/caddy")
    then join_lines (strip_default false (split_lines t))
    else t

with_global : Text → Text
with_global t = if contains t (codes "order coraza_waf") then t else coraza_global ++ t

-- `len(s) > 0 && s[len(s)-1] != '\n'`
ended_line : Text → Text
ended_line [] = []
ended_line (c ∷ cs) = if has_suffix (c ∷ cs) (10 ∷ []) then c ∷ cs else (c ∷ cs) ++ 10 ∷ []

with_import : Text → Text → Text
unfolding ended_line
with_import dir t = if contains t (import_line dir) then t else ended_line t ++ import_line dir

-- What EnsureMainCaddyfile makes of the file.
unfoldable pub ensured : Text → Text → Text
unfolding without_default_site with_global with_import
ensured dir t = with_import dir (with_global (without_default_site t))

-- A step on the files, or the error that ended it.
pub data Outcome : Type 0 where
  done : CaddyFiles → Outcome
  failed : CaddyError → CaddyFiles → Outcome

-- The main Caddyfile is written where it changes.
unfoldable settle_main : Bool → Bool → CaddyFiles → Text → Outcome
settle_main is_same is_written files new =
    if is_same
    then done files
    else if is_written
    then done (record files { main = some new })
    else failed unwritable_main files

unfoldable read_main : Bool → CaddyFiles → Outcome → Outcome
read_main is_readable files after = if is_readable then after else failed unreadable_main files

-- os.Remove of a file, by what it holds: one that is missing is no error.
unfoldable pub removed_file : Text → CaddyFiles → Option Text → Bool → Outcome
removed_file name files none is_removed = done files
removed_file name files (some content) is_removed =
    if is_removed
    then done (record files { fragments = remove name files.fragments })
    else failed unremovable files

-- The stages of a commit from `files` to `after`: staged, validated, installed.
unfoldable settle : Bool → Bool → Bool → CaddyFiles → CaddyFiles → Outcome
settle is_staged is_valid is_installed files after =
    if not is_staged
    then failed staging files
    else if not is_valid
    then failed rejected files
    else if not is_installed
    then failed installing files
    else done after

module _ (host : CaddyHost) where
  -- The live fragments in the sandbox.
  unfoldable pub mirror : Map Text → Map Text
  mirror [] = []
  mirror ((name, content) ∷ files) =
      let rest = mirror files in
      if host.is_dir name || not (has_suffix name (codes ".caddy")) || not (host.readable name)
      then rest
      else (name, content) ∷ rest

  default_main : Text → Text
  default_main dir = import_line dir

  -- The main Caddyfile whose import is of the sandbox.
  unfoldable pub candidate_main : Text → Option Text → Text
  unfolding default_main
  candidate_main dir none = default_main dir
  candidate_main dir (some main) =
      if host.main_readable then replace_all main host.config_dir dir else default_main dir

  unfoldable pub staged_files : Text → Text → CaddyFiles → Map Text
  staged_files app content files = put (fragment_name app) content (mirror files.fragments)

  unfoldable commit_in : Text → Text → CaddyFiles → Option Text → Outcome
  unfolding settle
  commit_in app content files none = failed no_sandbox files
  commit_in app content files (some dir) =
      settle (host.staged && host.main_staged)
        (host.valid (candidate_main dir files.main) (staged_files app content files)) host.installed
        files (record files { fragments = put (fragment_name app) content files.fragments })

  unfoldable pub commit_fragment_safely : Text → Text → CaddyFiles → Outcome
  unfolding commit_in
  commit_fragment_safely app content files = commit_in app content files host.sandbox

  -- GenerateConfig, of a fragment's text.
  unfoldable pub generate_config : Text → Text → CaddyFiles → Outcome
  generate_config app content files =
      if sanitize_app_name app
      then commit_fragment_safely app content files
      else failed bad_app_name files

  unfoldable main_after : CaddyFiles → Option Text → Outcome
  unfolding settle_main read_main
  main_after files none =
      settle_main false host.main_written files (coraza_global ++ import_line host.config_dir)
  main_after files (some old) =
      let new = ensured host.config_dir old in
      read_main host.main_readable files (settle_main (text_eq new old) host.main_written files new)

  unfoldable pub ensure_main_caddyfile : CaddyFiles → Outcome
  unfolding main_after
  ensure_main_caddyfile files = main_after files files.main

  -- Validate reads the main Caddyfile, and the fragments as it imports them.
  unfoldable pub validate : CaddyFiles → Bool
  validate files = elim files.main [ none ↦ false | some main ↦ host.valid main files.fragments ]

  unfoldable pub reload_caddy : CaddyFiles → Outcome
  reload_caddy files =
      if not (validate files)
      then failed invalid_config files
      else if host.reload || host.fallback
      then done files
      else failed reload_failed files

  unfoldable pub remove_config : Text → CaddyFiles → Outcome
  unfolding removed_file
  remove_config app files =
      if not (sanitize_app_name app)
      then failed bad_app_name files
      else removed_file (fragment_name app) files (get (fragment_name app) files.fragments)
          host.removed
