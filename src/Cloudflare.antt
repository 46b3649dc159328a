-- ===== src/Cloudflare.antt =====
-- The Cloudflare provider (cli/internal/serverless).
pub mod Api
pub mod Ensure
pub mod Hyperdrive
pub mod D1
pub mod Dns
pub mod Plan
pub mod Zone
pub mod Provision
pub mod Teardown
pub mod Bindings
mod Tests
