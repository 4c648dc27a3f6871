-- ===== src/Documents.antt =====
-- documents/: the document service and its router.
pub mod Names
pub mod Missing
pub mod Objects
pub mod Schemas
pub mod Reading
pub mod Creating
pub mod Deleting
pub mod Media
pub mod Router
