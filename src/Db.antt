-- ===== src/Db.antt =====
-- The package db: the database of a service, with the results that a test gives it.
pub mod Mysql
