-- ===== src/Core.antt =====
-- modules/core of the repository.
pub mod Str
