-- ===== src/Route.antt =====
-- route/: the state that the URL keeps.
pub mod Router
pub mod Item
pub mod MetricView
