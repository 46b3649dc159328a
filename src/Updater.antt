-- ===== src/Updater.antt =====
-- The self-update of the programs (shared/updater/updater.go).
pub mod Versions
pub mod Checksums
pub mod SelfUpdate
