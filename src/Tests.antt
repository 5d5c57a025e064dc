-- ===== src/Tests.antt =====
-- Concrete stores, commands and hubs on which the code is run, and the theorems at them.
mod Stores
mod Storage
mod Events
mod Dispatching
mod Metadata
mod Clustering
mod Pebble
mod Booting
mod Batches
mod Loops
mod Delivering
