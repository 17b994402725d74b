-- ===== src/Fragment.antt =====
-- internal/fragment: the strict JSON of profile fragments and of the launcher's configuration files.
pub mod Value
pub mod Quoted
pub mod Reader
pub mod Canonical
pub mod Rules
pub mod Channels
pub mod Sections
pub mod Policy
pub mod Services
pub mod Document
