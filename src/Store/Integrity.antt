-- ===== src/Store/Integrity.antt =====
-- internal/store: the invariant of the database over the calls of the store.
pub mod Users
pub mod Accounts
pub mod Rules
pub mod Messages
pub mod Gmail
pub mod Calls
