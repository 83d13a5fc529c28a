-- ===== src/Store.antt =====
-- internal/store: the statements that the store sends to the database and what it makes of their
-- results. DBStore of store.go hands each call to the store of its component.
pub mod Sql
pub mod User
pub mod Account
pub mod Rule
pub mod Log
pub mod Gmail
pub mod Integrity
pub mod Requests
pub mod Returns
