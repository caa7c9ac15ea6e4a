-- ===== src/Metrics.antt =====
-- components/metrics/utils/metric-timeseries-visible.ts: the view of a metric kept between visits.
pub mod Storage
pub mod Visible
pub mod Persistence
pub mod Resolution
pub mod Colors
pub mod Palette
pub mod SeriesView
pub mod Aggregation
pub mod Link
