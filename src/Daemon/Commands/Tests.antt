-- ===== src/Daemon/Commands/Tests.antt =====
-- Commands on a daemon with a stand-in host (daemon/internal/daemon/command_handler.go): its digest
-- is the secret and the payload, its payload the kind and the nonce, and its handlers count.
use next_deploy.Common.{ℕ, ◌+◌, ◌≡◌, ◌↔◌, refl, true, false, none, some, [], ◌∷◌, ◌++◌, arith}
use next_deploy.Common.Int.{pos}
use next_deploy.Common.Text.{Text, codes, text_eq}
use next_deploy.Common.Map.{get, put, retain}
use next_deploy.Daemon.RateLimiter.{allow}
use next_deploy.Daemon.ReplayGuard.{check, five_minutes}
use next_deploy.Daemon.Access.{verify_signature, is_ip_allowed}
use next_deploy.Daemon.Commands.{
  Command, Response, DaemonConfig, Host, Daemon, from_handler, Kind, validate_command, kind_of,
  handle_command,
}
use next_deploy.Daemon.Commands.Pipeline.{Authorized, unauthorized_unchanged, validate_command_iff}
use next_deploy.Daemon.Commands.Sessions.{Connections, serve, runs_at_most_once}

abbrev handled : Response
handled = record { success = true; message = from_handler [] }

abbrev host : Host ℕ
host = record {
  net = record { split_host = λ s. none; parse_ip = λ s. none; parse_cidr = λ s. none };
  mac = λ secret payload. secret ++ payload;
  encode = λ kind args ts nonce. kind ++ nonce;
  logged = λ e. true;
  run = λ kind args w. (handled, w + 1);
}

abbrev config : DaemonConfig
config = record { security_secret = codes "s3"; ip_whitelist = [] }

abbrev noon : ℕ
noon = 1_780_000_000_500_000_000

abbrev start : Daemon ℕ
start = record {
  rate_limiter = record { tokens = []; last = []; rate = 10; burst = 20_000_000_000 };
  replay_guard = record { seen = []; window = pos five_minutes };
  audit = [];
  world = 0;
  commands_handled = 0;
}

abbrev client : Text
client = codes "local-unix-socket"

abbrev cmd : Command
cmd = record {
  kind = codes "status";
  args = [];
  signature = codes "s3statusa1";
  timestamp = pos 1_780_000_000;
  nonce = codes "a1";
}

cmd-Authorized : Authorized host config noon cmd client start
unfolding allow check is_ip_allowed verify_signature get put text_eq retain
cmd-Authorized = record { within_rate = refl; listed = refl; signed = refl; fresh = refl }

-- The same command with another signature.
abbrev forged : Command
forged = record cmd { signature = codes "guess" }

forged_refused : ¬ Authorized host config noon forged client start
unfolding verify_signature text_eq
forged_refused auth = cc (auth.signed)

unauthorized_unchanged_example :
    let (resp, d) = handle_command host config noon forged client start in
    (resp.success ≡ false) × (d.world ≡ 0) × (d.audit ≡ [])
unauthorized_unchanged_example =
    unauthorized_unchanged host config noon forged client start forged_refused

abbrev between : Connections
between = (noon + 1, codes "@", some forged) ∷ (noon + 2, [], none) ∷ []

runs_at_most_once_example :
    let d2 = serve host config between (handle_command host config noon cmd client start).1 in
    let (resp, d3) = handle_command host config (noon + 3) cmd client d2 in
    (resp.success ≡ false) × (d3.world ≡ d2.world) × (d3.audit ≡ d2.audit)
runs_at_most_once_example =
    runs_at_most_once host config five_minutes noon (noon + 3) cmd cmd client client start between
      (record { windowed = refl; distinct = tt }) (omega arith) (omega arith) (omega arith)
      cmd-Authorized (omega arith) refl refl

validate_command_iff_example :
    (validate_command cmd ≡ true) ↔ ((k : Kind) × (kind_of cmd.kind ≡ some k))
validate_command_iff_example = validate_command_iff cmd
