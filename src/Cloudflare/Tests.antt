-- ===== src/Cloudflare/Tests.antt =====
-- The provider on small accounts (cli/internal/serverless).
pub mod Account
pub mod Records
pub mod Deploys
pub mod Migrations
