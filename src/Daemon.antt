-- ===== src/Daemon.antt =====
-- The deployment daemon (daemon/internal/daemon).
pub mod Clock
pub mod RateLimiter
pub mod ReplayGuard
pub mod Access
pub mod Releases
pub mod Locks
pub mod Services
pub mod Fingerprint
pub mod Health
pub mod Caddy
pub mod ShipHandler
pub mod StopHandler
pub mod RollbackHandler
pub mod Destroy
pub mod Activation
pub mod EnvFile
pub mod Commands
pub mod Arguments
pub mod Secrets
