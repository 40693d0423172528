-- ===== src/Pages.antt =====
-- The pages of frontend/src/routes/_authenticated: what they fetch and compute, without their markup.
pub mod Fetch
pub mod Times
pub mod Deployments
pub mod Applications
pub mod Versions
pub mod Application
pub mod Events
pub mod Dashboard
pub mod Mutations
pub mod EventDetail
pub mod Alerts
pub mod Settings
