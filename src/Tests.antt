-- ===== src/Tests.antt =====
-- Runs of the models at concrete inputs, and the theorems at inputs that meet their hypotheses.
mod Access
mod Codes
mod Compression
mod Csr
mod Degrees
mod Graphs
mod Nodes
mod Symmetric
mod Acyclicity
mod Visits
mod Mutable
mod Derived
mod Labels
mod Components
