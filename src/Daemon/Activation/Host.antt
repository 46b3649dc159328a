-- ===== src/Daemon/Activation/Host.antt =====
-- The state of the host during an activation (activateRelease,
-- daemon/internal/daemon/command_handler.go), what the host answers, and the steps on it.
use next_deploy.Common.{ℕ, Bool, true, false, Option, List}
use next_deploy.Common.Text.{Text}
use next_deploy.Common.Map.{Map}
use next_deploy.Daemon.Fingerprint.{EnvFingerprint}

pub record Server : Type 0 where
  pub ports : Map ℕ  -- state.json: the port of each app
  pub reserved : List ℕ  -- the ports on which the daemon itself listens
  pub units : List Text  -- the unit files
  pub running : List Text  -- the units that run
  pub current : Map Text  -- the target of each app's `current` link
  pub port_files : Map ℕ
  pub routes : Map (Text × ℕ)  -- each app's Caddy fragment: its domain and port
  pub releases : Map (List Text)  -- the release directories of each app
  pub uploads : List Text
  pub baseline : Option EnvFingerprint

pub record ReleaseContext : Type 0 where
  pub app : Text
  pub domain : Text
  pub release_dir : Text
  pub release_id : Text
  pub output_mode : Text
  pub doppler_token : Text
  pub package_manager : Text
  pub tarball : Text

-- What the host answers during one activation.
pub record Outcomes : Type 0 where
  pub fingerprint : EnvFingerprint
  pub port_free : ℕ → Bool  -- isPortAvailable
  pub free_port : Option ℕ  -- findFreePort
  pub env_rendered : Bool
  pub resolve : Text → Text  -- resolveBinary
  pub limits_valid : Bool
  pub unit_written : Bool
  pub reloaded : Bool  -- systemctl daemon-reload
  pub started : Bool  -- systemctl start
  pub healthy : Bool  -- waitForHealthy
  pub port_file_written : Bool
  pub linked : Bool  -- os.Symlink
  pub link_renamed : Bool  -- os.Rename
  pub main_caddyfile : Bool  -- EnsureMainCaddyfile
  pub route_committed : Bool  -- GenerateConfig
  pub caddy_valid : Bool
  pub units_listed : Bool  -- os.ReadDir of the directory of systemd
  pub stops : Text → Bool  -- systemctl stop
  pub removes : Text → Bool  -- os.Remove of a unit file

pub data Failure : Type 0 where
  port_allocation env_render unknown_mode bad_limits unit_write daemon_reload service_start :
      Failure
  health symlink_create symlink_rename main_config caddy_config caddy_validation : Failure

-- A step on the host: what was done before a failure stays done.
pub data Run (A : Type 0) : Type 0 where
  done : A → Server → Run A
  failed : Failure → Server → Run A

abbrev pub M : Type 0 → Type 0
M A = Server → Run A

abbrev pub continue : {A B : Type 0} → Run A → (A → M B) → Run B
continue (done a s) f = f a s
continue (failed e s) f = failed e s

infixl 5 ◌>>=◌ ◌>>◌
abbrev pub ◌>>=◌ : {A B : Type 0} → M A → (A → M B) → M B
◌>>=◌ m f s = continue (m s) f

abbrev pub ◌>>◌ : {B : Type 0} → M (Unit {0}) → M B → M B
m >> n = m >>= λ _. n

abbrev pub modify : (Server → Server) → M (Unit {0})
modify f s = done tt (f s)

-- `if err != nil { return … }`
abbrev pub require : Bool → Failure → M (Unit {0})
require true e s = done tt s
require false e s = failed e s

abbrev pub recover : {A : Type 0} → (Server → Server) → Run A → Run A
recover clean (done a s) = done a s
recover clean (failed e s) = failed e (clean s)

-- What is done on the way out of a failing step.
abbrev pub on_failure : {A : Type 0} → (Server → Server) → M A → M A
on_failure clean m s = recover clean (m s)
