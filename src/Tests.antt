-- ===== src/Tests.antt =====
-- Runs of the model on small inputs, and the theorems at inputs that meet their hypotheses.
pub mod Floats
pub mod Store
pub mod Placement
pub mod Scheduling
pub mod Systems
mod Processes
mod Plants
pub mod Clusters
mod Demands
