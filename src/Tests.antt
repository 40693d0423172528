-- ===== src/Tests.antt =====
-- Witnesses: each theorem at a concrete input.
mod Data
mod Client
mod Adapter
mod Auth
mod Series
mod Live
mod Server
mod Shell
mod Events
mod Pages
mod Highlight
mod Snapshots
mod Panes
mod Toggle
