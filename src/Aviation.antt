-- ===== src/Aviation.antt =====
-- aviation/: the identities of the airlines and their synchronisation.
pub mod Slug
pub mod Rows
pub mod Identity
pub mod Sync
