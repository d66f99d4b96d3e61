-- ===== src/Crdt.antt =====
-- BancoReplicado/crdt/crdt.go: the state-based CRDTs of the replicated database.
pub mod Hlc
pub mod MergeableString
pub mod MergeableMap
pub mod Wire
pub mod Tests
