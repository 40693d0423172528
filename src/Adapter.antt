-- ===== src/Adapter.antt =====
-- frontend/src/integrations/collector/adapter.ts: the query builder that the pages use as if it were
-- a Supabase client. The parameter `read_table` of Run is `loadReadTable`, which Tables has; Store has
-- the four calls on the collector's configuration entities.
pub mod Query
pub mod Builder
pub mod Store
pub mod Tables
pub mod Run
pub mod Meets
pub mod Select
pub mod Errors
pub mod Ids
pub mod Deletion
pub mod Changes
