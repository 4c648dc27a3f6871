-- ===== src/Auth.antt =====
-- auth/: passwords and tokens, the service, and the dependencies and routes over it.
pub mod Base64
pub mod Security
pub mod Email
pub mod Rows
pub mod Schemas
pub mod Service
pub mod Dependencies
pub mod Router
