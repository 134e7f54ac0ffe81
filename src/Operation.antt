-- ===== src/Operation.antt =====
-- The operations on votes and romances (internal/context/voting/application/operation).
pub mod Transitions
pub mod Retry
pub mod AddUserVote
pub mod ChangeUserVote
pub mod DeleteUserVote
pub mod DeleteRomances
pub mod Direct
