-- ===== src/Daemon/Destroy/Others.antt =====
-- What a destroy leaves of an app of another name (handleDestroy,
-- daemon/internal/daemon/command_handler.go).
use next_deploy.Common.{◌≡◌, false, ◌++◌, In}
use next_deploy.Common.Text.{Text, codes, has_prefix}
use next_deploy.Common.Map.{Map, get}
use next_deploy.Daemon.Services.{service_name}
use next_deploy.Daemon.Caddy.{fragment_name}
use next_deploy.Daemon.Destroy.{Machine, DestroyHost}

-- Neither name begins with the other.
abbrev pub AreApart : Text → Text → Type 0
AreApart a b = (has_prefix b a ≡ false) × (has_prefix a b ≡ false)

-- What an app has, by its name: its units, the paths and uploads that begin with its name, its port and
-- its Caddy fragment.
pub record IsSpared (b : Text) (m after : Machine) : Type 0 where
  pub units : (id : Text) → In (service_name b id) m.units → In (service_name b id) after.units
  pub running :
      (id : Text) → In (service_name b id) m.running → In (service_name b id) after.running
  pub files :
      (rest : Text)
      → In (codes "/opt/nextdeploy/apps/" ++ (b ++ rest)) m.files
      → In (codes "/opt/nextdeploy/apps/" ++ (b ++ rest)) after.files
  pub logs :
      (rest : Text)
      → In (codes "/var/log/containers/" ++ (b ++ rest)) m.files
      → In (codes "/var/log/containers/" ++ (b ++ rest)) after.files
  pub uploads : (rest : Text) → In (b ++ rest) m.uploads → In (b ++ rest) after.uploads
  pub port : get b after.ports ≡ get b m.ports
  pub fragment :
      get (fragment_name b) after.caddy.fragments ≡ get (fragment_name b) m.caddy.fragments

module _ (host : DestroyHost) (a b rest : Text) where
  -- filepath.Join of a directory and a plain name.
  abbrev Joins : Type 0
  Joins = (dir : Text) → host.join dir a ≡ dir ++ (codes "/" ++ a)
