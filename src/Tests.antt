-- ===== src/Tests.antt =====
-- Tests of the modelled code on concrete values, and the theorems applied to some of them.
mod Cluster
mod Events
mod Passes
mod Teardowns
mod Checks
mod Engines
mod Caches
mod Policies
mod Formulas
mod Admissions
mod Updates
mod Pools
mod Levels
mod Connections
mod Validations
