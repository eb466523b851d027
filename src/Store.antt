-- ===== src/Store.antt =====
-- The database that internal/repository/postgres works on: tables as lists of rows (Store.Tables),
-- and the laws of an UPDATE that one key selects (Store.Rows).
pub mod Rows
pub mod Tables
pub mod Updates
