-- ===== src/Lpss.antt =====
-- modules/lpss: the lightweight publish-subscribe service.
pub mod Guid
pub mod Mtp
pub mod Tf
pub mod Node
pub mod Rsd
