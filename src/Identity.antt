-- ===== src/Identity.antt =====
-- packages/modules/identity: who is signed in.
pub mod Permission
pub mod Session
pub mod User
