-- ===== src/RomancesRepository.antt =====
-- The store of romances (internal/context/voting/infrastructure/persistence/romances_repository.go).
pub mod PrimaryKey
pub mod Ttl
pub mod Transform
pub mod Get
pub mod Represents
pub mod Writes
pub mod Deletes
pub mod Peers
pub mod Storage
pub mod Reading
pub mod Locking
