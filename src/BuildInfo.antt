-- ===== src/BuildInfo.antt =====
-- internal/buildinfo: release versions, and the features that an Agent's version has.
pub mod Version
pub mod Features
pub mod Order
pub mod Gates
pub mod Parse
