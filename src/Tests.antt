-- ===== src/Tests.antt =====
-- Concrete runs of the model, and the theorems applied to them.
mod Trees
mod Cursors
mod Queries
mod Stores
mod Scans
mod Data
mod Subscriptions
mod Filters
mod Keys
mod Messages
mod Meets
mod Ranges
