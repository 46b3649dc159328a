-- ===== src/Daemon/Releases.antt =====
-- The release directories of an app (daemon/internal/daemon/command_handler.go): shortSha, the
-- release IDs, resolveRollbackTarget and releasesToPrune. Letters and white space are ASCII.
pub mod Rollback
pub mod Prune
mod Tests
use next_deploy.Common.{
  ℕ, zero, suc, ◌+◌, ◌-◌, Bool, true, false, ◌&&◌, ◌||◌, Option, none, some, List, [], ◌∷◌, ◌++◌,
  map, length, take, get_elem?, ltb, leb, ◌==◌, if◌then◌else◌,
}
use mathlib.Core.List.{reverse}
use next_deploy.Common.Text.{Text, codes, text_eq, to_lower, trim_space, has_prefix}
use next_deploy.Common.Sort.{sort}

-- A prefix of seven characters, or "nogit".
unfoldable pub short_sha : Text → Text
short_sha full =
    if leb 7 (length full) then take 7 full else if text_eq full [] then codes "nogit" else full

-- `id[strings.LastIndex(id, "-")+1:]`, if there is a dash.
unfoldable pub after_last_dash : Text → Option Text
after_last_dash [] = none
after_last_dash (c ∷ cs) = elim (after_last_dash cs) [
  | some r ↦ some r
  | none ↦ if c == b'-' then some cs else none
]

pub data RollbackError : Type 0 where
  not_enough_releases commit_not_found not_enough_steps : RollbackError

pub data Target : Type 0 where
  target : Text → Target
  failed : RollbackError → Target

-- The commit of a release by its directory's name, or by its metadata.json: `commit_of` is the
-- GitCommit that readMetadata gets, if it gets one.
pub matches : (Text → Option Text) → Text → Text → Bool
matches commit_of needle id =
    elim (after_last_dash id) [ some sha ↦ has_prefix (to_lower sha) needle | none ↦ false ]
    || elim (commit_of id) [ some commit ↦ has_prefix (to_lower commit) needle | none ↦ false ]

-- `for i := n-1; i >= 0; i-- { … }` over the releases.
walk : (Text → Option Text) → Text → List Text → ℕ → Option Text
walk commit_of needle releases zero = none
walk commit_of needle releases (suc i) =
    let rest = walk commit_of needle releases i in
    elim (get_elem? releases i) [
      | some id ↦ if matches commit_of needle id then some id else rest
      | none ↦ rest
    ]

found : RollbackError → Option Text → Target
found e none = failed e
found e (some id) = target id

-- `releases` is sorted, the oldest first. A number of steps that is not positive is 0 here.
unfoldable pub resolve_rollback_target : (Text → Option Text) → List Text → ℕ → Text → Target
unfolding walk found
resolve_rollback_target commit_of releases steps to_commit =
    if ltb (length releases) 2
    then failed not_enough_releases
    else if text_eq to_commit []
    then (let n = if steps == 0 then 1 else steps in
        if ltb (length releases) (n + 1)
        then failed not_enough_steps
        else found not_enough_steps (get_elem? releases (length releases - 1 - n)))
    else found commit_not_found
        (walk commit_of (to_lower (trim_space to_commit)) releases (length releases - 1))

-- The releases to delete: all but the newest `keep`.
unfoldable pub releases_to_prune : List Text → ℕ → List Text
releases_to_prune names keep =
    if leb (length names) keep
    then []
    else let sorted = sort names in take (length sorted - keep) sorted
