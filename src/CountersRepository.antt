-- ===== src/CountersRepository.antt =====
-- The store of counters (internal/context/voting/infrastructure/persistence/counters_repository.go).
pub mod Increments
pub mod Hourly
