-- ===== src/Pages/Events.antt =====
-- frontend/src/routes/_authenticated/events.tsx: the search, its lists of values, and the rows.
pub mod Search
pub mod Rows
pub mod Rail
pub mod Csv
pub mod Shown
pub mod Filters
pub mod Chips
pub mod ById
pub mod Latest
pub mod SeenOn
pub mod Passes
