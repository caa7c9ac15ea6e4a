-- ===== src/ListPage.antt =====
-- The list pages of the three signals: the sequence numbers of their updates, the selection, and
-- the page's state.
pub mod Sequence
pub mod Selection
pub mod Page
pub mod Settles
pub mod Races
