-- ===== src/Daemon/Commands.antt =====
-- HandleCommand and ValidateCommand of daemon/internal/daemon/command_handler.go, the connection
-- handler of socket_server.go, and the client's signing (daemon/internal/client/client.go). What a
-- command does once it is let through is a parameter: a handler for each kind of command, over the
-- state `World` of the host.
pub mod Pipeline
pub mod Sessions
mod Tests
use next_deploy.Common.{
  ℕ, ◌+◌, ◌/◌, ◌||◌, Bool, true, false, Option, none, some, List, [], ◌∷◌, ◌++◌, if◌then◌else◌, not,
}
use mathlib.Core.Option
use next_deploy.Common.Int.{ℤ, pos}
use next_deploy.Common.Text.{Text, codes, text_eq}
use next_deploy.Common.Map.{Map}
use next_deploy.Daemon.Clock.{second}
use next_deploy.Daemon.RateLimiter.{RateLimiter, allow}
use next_deploy.Daemon.ReplayGuard.{ReplayGuard, CheckError, check}
use next_deploy.Daemon.Access.{Net, verify_signature, is_ip_allowed}

-- A JSON argument as the handlers read it. A number is a float64: whether it is below zero, the
-- whole part of its size, and whether it has a fraction.
pub data Arg : Type 0 where
  text : Text → Arg
  truth : Bool → Arg
  number : Bool → ℕ → Bool → Arg
  other : Arg

pub record Command : Type 0 where
  pub kind : Text
  pub args : Map Arg
  pub signature : Text
  pub timestamp : ℤ
  pub nonce : Text

-- The cases of the switch.
pub data Kind : Type 0 where
  setup_caddy stop_daemon restart_daemon ship rollback secrets status logs destroy stop : Kind

pub data Message : Type 0 where
  rate_limit_exceeded ip_not_whitelisted invalid_signature unknown_command : Message
  replay_protection : CheckError → Message
  invalid_command : Message
  from_handler : Text → Message

pub record Response : Type 0 where
  pub success : Bool
  pub message : Message

-- One line of the audit log, less its time.
pub record AuditEntry : Type 0 where
  pub command : Command
  pub client_identity : Text
  pub response : Response

pub record DaemonConfig : Type 0 where
  pub security_secret : Text
  pub ip_whitelist : List Text

-- The switch on cmd.Type.
unfoldable pub kind_of : Text → Option Kind
kind_of t =
    if text_eq t (codes "setupCaddy")
    then some setup_caddy
    else if text_eq t (codes "stopdaemon")
    then some stop_daemon
    else if text_eq t (codes "restartDaemon")
    then some restart_daemon
    else if text_eq t (codes "ship")
    then some ship
    else if text_eq t (codes "rollback")
    then some rollback
    else if text_eq t (codes "secrets")
    then some secrets
    else if text_eq t (codes "status")
    then some status
    else if text_eq t (codes "logs")
    then some logs
    else if text_eq t (codes "destroy")
    then some destroy
    else if text_eq t (codes "stop")
    then some stop
    else none

-- The keys of the map of the same name.
pub allowed_commands : List Text
allowed_commands =
    codes "setupCaddy"
    ∷ codes "stopdaemon"
    ∷ codes "restartDaemon"
    ∷ codes "ship"
    ∷ codes "rollback"
    ∷ codes "secrets"
    ∷ codes "status"
    ∷ codes "logs"
    ∷ codes "destroy"
    ∷ codes "stop"
    ∷ []

has_key : Text → List Text → Bool
has_key t [] = false
has_key t (k ∷ ks) = let rest = has_key t ks in if text_eq t k then true else rest

-- No error is `true`.
pub validate_command : Command → Bool
unfolding allowed_commands has_key
validate_command cmd = has_key cmd.kind allowed_commands

-- What the daemon's code does not implement, or what this part of it leaves open.
pub record Host (World : Type 0) : Type 0 where
  pub net : Net
  pub mac : Text → Text → Text  -- secret, payload
  pub encode : Text → Map Arg → ℤ → Text → Text  -- json.Marshal of the four signed fields
  pub logged : AuditEntry → Bool  -- whether Log can encode the entry, open the file and write to it
  pub run : Kind → Map Arg → World → Response × World

pub record Daemon (World : Type 0) : Type 0 where
  pub rate_limiter : RateLimiter
  pub replay_guard : ReplayGuard
  pub audit : List AuditEntry
  pub world : World
  pub commands_handled : ℕ

refuse : Message → Response
refuse m = record { success = false; message = m }

-- RemoteAddr of a Unix socket is empty or "@".
unfoldable pub identity_of : Text → Text
identity_of remote =
    if text_eq remote [] || text_eq remote (codes "@") then codes "local-unix-socket" else remote

module _ {World : Type 0} (host : Host World) where
  pub signed_payload : Command → Text
  signed_payload cmd = host.encode cmd.kind cmd.args cmd.timestamp cmd.nonce

  -- SendCommand: the fields that the client adds. `now` is its clock in nanoseconds.
  pub sign_command : ℕ → Text → Text → Text → Map Arg → Command
  unfolding signed_payload
  sign_command now secret nonce kind args =
      let ts = pos (now / second) in
      let unsigned : Command = record {
        kind = kind;
        args = args;
        signature = [];
        timestamp = ts;
        nonce = nonce;
      } in
      if text_eq secret []
      then unsigned
      else record unsigned { signature = host.mac secret (host.encode kind args ts nonce) }

module _ {World : Type 0} (host : Host World) (config : DaemonConfig) where
  -- The gates before the switch: rate, address, signature, replay. `none` lets the command through.
  gate_replay : ℕ → Command → Daemon World → Option Message × Daemon World
  gate_replay now cmd d =
      let (e, guard) = check now cmd.timestamp cmd.nonce d.replay_guard in
      (Option.map replay_protection e, record d { replay_guard = guard })

  gate_signature : ℕ → Command → Daemon World → Option Message × Daemon World
  unfolding gate_replay
  gate_signature now cmd d =
      if not
        (verify_signature host.mac (signed_payload host cmd) cmd.signature config.security_secret)
      then (some invalid_signature, d)
      else gate_replay now cmd d

  pub gates : ℕ → Command → Text → Daemon World → Option Message × Daemon World
  unfolding gate_signature
  gates now cmd client_identity d =
      let (ok, limiter) = allow now client_identity d.rate_limiter in
      let d' = record d { rate_limiter = limiter } in
      if not ok
      then (some rate_limit_exceeded, d')
      else if not (is_ip_allowed host.net client_identity config.ip_whitelist)
      then (some ip_not_whitelisted, d')
      else gate_signature now cmd d'

  -- The switch on cmd.Type.
  dispatch : Option Kind → Map Arg → World → Response × World
  dispatch none args w = (refuse unknown_command, w)
  dispatch (some k) args w = host.run k args w

  execute : Command → Text → Daemon World → Response × Daemon World
  unfolding dispatch refuse
  execute cmd client_identity d =
      let (resp, w) = dispatch (kind_of cmd.kind) cmd.args d.world in
      let entry : AuditEntry = record {
        command = cmd;
        client_identity = client_identity;
        response = resp;
      } in
      (
        resp,
        record d {
          world = w;
          audit = if host.logged entry then d.audit ++ entry ∷ [] else d.audit;
        },
      )

  after_gates : Command → Text → Option Message × Daemon World → Response × Daemon World
  unfolding execute
  after_gates cmd client_identity (some m, d) = (refuse m, d)
  after_gates cmd client_identity (none, d) = execute cmd client_identity d

  pub handle_command : ℕ → Command → Text → Daemon World → Response × Daemon World
  unfolding after_gates
  handle_command now cmd client_identity d =
      after_gates cmd client_identity (gates now cmd client_identity d)

  -- `none` is a connection whose JSON does not decode: it gets no response.
  pub handle_connection : ℕ → Text → Option Command → Daemon World → Option Response × Daemon World
  handle_connection now remote none d = (none, d)
  handle_connection now remote (some cmd) d =
      if not (validate_command cmd)
      then (some (refuse invalid_command), d)
      else let (resp, d') = handle_command now cmd (identity_of remote) d in
        (some resp, record d' { commands_handled = d'.commands_handled + 2 })
