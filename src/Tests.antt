-- ===== src/Tests.antt =====
-- Concrete inputs: the theorems at them, and runs of the model.
mod Sets
mod Reference
mod Cluster
mod Witnesses
mod Cycles
mod Clouds
mod Infras
mod OnAws
mod OnAzure
mod Whole
mod Parts
