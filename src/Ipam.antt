-- ===== src/Ipam.antt =====
-- controllers/egressipam/ipam.go: which address a namespace gets, and which node carries it.
pub mod Pool
pub mod Next
pub mod Namespaces
pub mod Buckets
pub mod Nodes
