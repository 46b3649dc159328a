-- ===== src/NextCompile/Actions.antt =====
-- The Server Actions of a build (parseUpstreamManifest and stabilize of shared/nextcompile/actions.go).
-- A map is given in the order in which the program happens to walk it. JSON is a parameter.
pub mod Stable
mod Tests
use next_deploy.Common.{Bool, true, false, Option, none, some, List, [], ◌∷◌, if◌then◌else◌}
use next_deploy.Common.Text.{Text, codes}
use next_deploy.Common.Map.{Map, get, put}
use next_deploy.Common.Sort.{sort}
use next_deploy.Common.FilePath.{trim_of}
use next_deploy.Daemon.EnvFile.{keys}

pub data ActionRuntime : Type 0 where
  node edge : ActionRuntime

pub record Action : Type 0 where
  pub id : Text
  pub module_name : Text
  pub export : Text
  pub runtime : ActionRuntime

-- The workers of each action, by module: raw JSON.
abbrev pub Entries : Type 0
Entries = Map (Map Text)

pub record UpstreamManifest : Type 0 where
  pub node : Entries
  pub edge : Entries

-- json.Unmarshal of a string, and of the field `moduleId` of an object.
pub record WorkerJson : Type 0 where
  pub as_string : Text → Option Text
  pub module_id : Text → Option Text

unfoldable pub same_runtime : ActionRuntime → ActionRuntime → Bool
same_runtime node node = true
same_runtime edge edge = true
same_runtime _ _ = false

unfoldable pub is_node : Option Action → Bool
is_node none = false
is_node (some a) = same_runtime a.runtime node

-- `for actionID, entry := range entries`
unfoldable pub over :
    (Text → Map Text → Map Action → Map Action) → Entries → Map Action → Map Action
over one [] actions = actions
over one ((id, workers) ∷ entries) actions = over one entries (one id workers actions)

unfoldable pub chosen_put : Text → Option Action → Map Action → Map Action
chosen_put id none actions = actions
chosen_put id (some a) actions = put id a actions

unfoldable pub is_current : ActionRuntime → Option Action → Bool
is_current runtime none = false
is_current runtime (some a) = same_runtime a.runtime runtime

module _ (json : WorkerJson) where
  id_of_object : Option Text → Text
  id_of_object none = []
  id_of_object (some raw) = trim_of b'"' raw

  id_of_string : Option Text → Text → Text
  unfolding id_of_object
  id_of_string (some s) raw = s
  id_of_string none raw = id_of_object (json.module_id raw)

  -- The identifier, "" where there is none.
  unfoldable pub module_id_from_worker : Text → Text
  unfolding id_of_string
  module_id_from_worker raw = id_of_string (json.as_string raw) raw

  unfoldable pub action_of : ActionRuntime → Text → Text → Text → Action
  action_of runtime id name raw = record {
    id = id;
    module_name = name;
    export = module_id_from_worker raw;
    runtime = runtime;
  }

  -- The first worker that the walk meets, unless the action is there for Node.
  unfoldable pub flatten_entry : ActionRuntime → Text → Map Text → Map Action → Map Action
  flatten_entry runtime id [] actions = actions
  flatten_entry runtime id ((name, raw) ∷ workers) actions =
      if is_node (get id actions) then actions else put id (action_of runtime id name raw) actions

  unfoldable pub flatten : ActionRuntime → Entries → Map Action → Map Action
  flatten runtime = over (flatten_entry runtime)

  -- entry.Workers[chosen]
  raw_of : Option Text → Text
  raw_of none = []
  raw_of (some raw) = raw

  unfoldable pub first_worker : ActionRuntime → Text → Map Text → List Text → Option Action
  unfolding raw_of
  first_worker runtime id workers [] = none
  first_worker runtime id workers (chosen ∷ names) =
      some (action_of runtime id chosen (raw_of (get chosen workers)))

  unfoldable pub pick_entry : ActionRuntime → Text → Map Text → Map Action → Map Action
  pick_entry runtime id workers actions =
      if is_current runtime (get id actions)
      then chosen_put id (first_worker runtime id workers (sort (keys workers))) actions
      else actions

  unfoldable pub pick : ActionRuntime → Entries → Map Action → Map Action
  pick runtime = over (pick_entry runtime)

  unfoldable pub stabilize : UpstreamManifest → Map Action → Map Action
  stabilize up actions = pick edge up.edge (pick node up.node actions)

  unfoldable pub parse_upstream : UpstreamManifest → Map Action
  parse_upstream up = stabilize up (flatten edge up.edge (flatten node up.node []))
