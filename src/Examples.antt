-- ===== src/Examples.antt =====
-- Small databases, and the theorems at them.
mod Data
mod Alerting
mod Delivery
mod Scan
mod Tables
mod Auth
mod Upload
mod Api
mod Access
mod Snapshot
mod Mcp
mod Lists
mod Pages
