-- ===== src/Waterfall.antt =====
-- components/traces/Waterfall: the tree of a trace's spans and the spans that are collapsed.
pub mod Structure
pub mod Children
pub mod Ancestors
pub mod CollapseStore
pub mod Visibility
pub mod SearchShape
pub mod Lens
pub mod Keys
pub mod Connectors
