-- ===== src/Samples.antt =====
-- Concrete paths, plans and records: runs of the definitions and uses of the theorems.
mod Machine
mod Data
mod Paths
mod Plans
mod Records
mod Streams
mod Planning
mod Inference
mod Disk
mod Storage
mod Services
mod Served
mod Queries
mod Policies
