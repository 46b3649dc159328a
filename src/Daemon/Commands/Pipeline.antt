-- ===== src/Daemon/Commands/Pipeline.antt =====
-- The gates of HandleCommand (daemon/internal/daemon/command_handler.go), and what lies behind them.
use next_deploy.Common.{
  ℕ, ◌/◌, ◌≡◌, ◌≢◌, ◌↔◌, ◌⊎◌, inl, inr, refl, Bool, true, false, Option, none, some, [], arith,
  Option-cases,
}
use next_deploy.Common.Int.{pos}
use next_deploy.Common.Text.{Text, text_eq_iff}
use next_deploy.Common.Map.{Map}
use next_deploy.Daemon.RateLimiter.{allow}
use next_deploy.Daemon.ReplayGuard.{check}
use next_deploy.Daemon.Access.{verify_signature, verify_signature_iff, is_ip_allowed}
use next_deploy.Daemon.Commands.{
  Arg, Command, Kind, DaemonConfig, Host, Daemon, kind_of, gates, handle_command, signed_payload,
  sign_command, validate_command,
}

module _ {World : Type 0} (host : Host World) (config : DaemonConfig) where
  -- What a command must pass, all in the state before it.
  pub record Authorized (now : ℕ) (cmd : Command) (client_identity : Text) (d : Daemon World)
      : Type 0 where
    pub within_rate : (allow now client_identity d.rate_limiter).0 ≡ true
    pub listed : is_ip_allowed host.net client_identity config.ip_whitelist ≡ true
    pub signed :
        verify_signature host.mac
          (host.encode cmd.kind cmd.args cmd.timestamp cmd.nonce)
          cmd.signature
          config.security_secret
        ≡ true
    pub fresh : (check now cmd.timestamp cmd.nonce d.replay_guard).0 ≡ none

  module _ (now : ℕ) (cmd : Command) (client_identity : Text) (d : Daemon World) where
    gates_pass :
        Authorized now cmd client_identity d
        → (gates host config now cmd client_identity d).0 ≡ none
    unfolding gates signed_payload
    gates_pass a = ground arith

    gates_only :
        (gates host config now cmd client_identity d).0 ≡ none
        → Authorized now cmd client_identity d
    unfolding gates signed_payload
    gates_only h = ground arith

    -- The gates touch neither the host nor the audit log.
    gates_keep :
        let d' = (gates host config now cmd client_identity d).1 in
        (d'.world ≡ d.world) × (d'.audit ≡ d.audit)
    unfolding gates
    gates_keep = ground arith

    -- The guard moves only by its own check.
    pub gates_guard :
        let d' = (gates host config now cmd client_identity d).1 in
        (d'.replay_guard ≡ d.replay_guard)
        ⊎ (d'.replay_guard ≡ (check now cmd.timestamp cmd.nonce d.replay_guard).1)
    unfolding gates
    gates_guard = ground arith

    -- The guard stays as it is after a command.
    pub handle_guard :
        (handle_command host config now cmd client_identity d).1.replay_guard
        ≡ (gates host config now cmd client_identity d).1.replay_guard
    unfolding handle_command
    handle_guard = ground arith

    pub Authorized-guard :
        Authorized now cmd client_identity d
        → (handle_command host config now cmd client_identity d).1.replay_guard
          ≡ (check now cmd.timestamp cmd.nonce d.replay_guard).1
    unfolding handle_command gates
    Authorized-guard auth = ground (arith, gates_pass auth)

    -- A command that fails a gate is answered with a failure, and leaves the host and the audit log
    -- as they were.
    pub unauthorized_unchanged :
        ¬ Authorized now cmd client_identity d
        → let (resp, d') = handle_command host config now cmd client_identity d in
          (resp.success ≡ false) × (d'.world ≡ d.world) × (d'.audit ≡ d.audit)
    unfolding handle_command
    unauthorized_unchanged no_auth =
        elim (Option-cases (gates host config now cmd client_identity d).0) [
          | inl pass ↦ absurd (no_auth (gates_only pass))
          | inr (m, e) ↦ ground (arith, gates_keep)
        ]

abbrev known : Option Kind → Bool
known none = false
known (some k) = true

validate_command-known : (cmd : Command) → validate_command cmd ≡ known (kind_of cmd.kind)
unfolding validate_command kind_of
validate_command-known cmd = ground arith

known_iff : (o : Option Kind) → (known o ≡ true) ↔ ((k : Kind) × (o ≡ some k))
known_iff none = (λ h. cc, λ h. cc (h.1))
known_iff (some k) = (λ h. (k, refl), λ h. refl)

-- ValidateCommand lets through exactly the kinds that the switch of HandleCommand knows.
pub validate_command_iff :
    (cmd : Command) → (validate_command cmd ≡ true) ↔ ((k : Kind) × (kind_of cmd.kind ≡ some k))
validate_command_iff cmd = rw (validate_command-known cmd) (known_iff (kind_of cmd.kind))

-- With the daemon's secret, what SendCommand signs is accepted by VerifySignature, over the payload
-- that the daemon builds from the command's own fields.
sign_command-verifies :
    {World : Type 0} (host : Host World) (now : ℕ) (secret nonce kind : Text) (args : Map Arg)
    → secret ≢ []
    → let cmd = sign_command host now secret nonce kind args in
      verify_signature host.mac (signed_payload host cmd) cmd.signature secret ≡ true
unfolding sign_command
sign_command-verifies host now secret nonce kind args given = ground (
  arith,
  text_eq_iff secret [],
  verify_signature_iff host.mac (host.encode kind args (pos (now / 1_000_000_000)) nonce)
      (host.mac secret (host.encode kind args (pos (now / 1_000_000_000)) nonce)) secret,
)
