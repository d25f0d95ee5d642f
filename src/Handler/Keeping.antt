-- ===== src/Handler/Keeping.antt =====
-- Handlers that write no key keep all keys consistent.
pub mod Calls
pub mod Storage
pub mod Readers
pub mod Writers
