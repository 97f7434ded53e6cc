-- ===== src/Examples.antt =====
-- Concrete inputs on which the theorems are applied.
pub mod Values
pub mod Servers
pub mod Requests
pub mod Placements
pub mod Cluster
pub mod Messages
pub mod Meals
pub mod Queues
pub mod Rings
pub mod Bitsets
pub mod Sets
