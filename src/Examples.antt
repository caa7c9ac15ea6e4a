-- ===== src/Examples.antt =====
-- Runs of the modelled code, and the theorems at concrete inputs.
mod Queries
mod Pages
mod Views
mod Urls
mod Traces
