-- ===== src/Tests.antt =====
-- Concrete instances of the parameters, and each theorem at a concrete input.
mod Fixture
mod Documents
mod Jobs
mod Texts
mod Accounts
mod System
mod Wiring
mod Migrations
mod Storage
