-- ===== src/Time.antt =====
-- contexts/time-context.svelte.ts and the recent ranges of utils/time.ts: the time window of the
-- application.
pub mod Recents
pub mod Selection
pub mod Window
