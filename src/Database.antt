-- ===== src/Database.antt =====
-- The database layer (src/db): what a statement must be like to be run, the manager and the migrations.
pub mod SqlSafety
pub mod Manager
pub mod Migrations
