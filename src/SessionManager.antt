-- ===== src/SessionManager.antt =====
-- internal/sessionmanager/client: decisions and recovery of the session manager's client.
pub mod Routes
pub mod Store
pub mod Pending
pub mod Reconciler
pub mod HomeLease
pub mod LeaseJournal
pub mod Abandon
