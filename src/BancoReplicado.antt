-- ===== src/BancoReplicado.antt =====
-- BancoReplicado: the nodes of the replicated database.
pub mod Exec
pub mod Store
pub mod Transaction
pub mod CrdtTable
pub mod RaftTable
pub mod Database
pub mod Replication
pub mod Rpc
pub mod Instance
pub mod Listeners
pub mod Launch
pub mod Http
pub mod Tests
