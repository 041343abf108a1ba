-- ===== src/Examples.antt =====
-- Runs of the modelled code on small journals, tables and traces, which instantiate the theorems.
mod Data
mod Parsing
mod Processing
mod Scanning
mod Breaking
mod Servicing
mod Dashboards
mod Recorders
mod Cleaning
