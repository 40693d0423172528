-- ===== src/Client.antt =====
-- frontend/src/integrations/collector/client.ts
pub mod Rows
pub mod Values
pub mod Endpoints
pub mod Http
pub mod Cache
pub mod Groups
pub mod Events
pub mod Promises
pub mod Frames
pub mod Series
pub mod Socket
pub mod Applications
pub mod Servers
