-- ===== src/NextCompile.antt =====
-- The compilation of a Next.js build into a bundle for a worker (shared/nextcompile).
pub mod Modules
pub mod Paths
pub mod Layouts
pub mod Dispatch
pub mod Actions
pub mod Versions
pub mod Contents
