-- ===== src/Store.antt =====
-- The database as the routes see it (server/app/db, server/app/models).
pub mod Schema
pub mod Session
pub mod Tables
