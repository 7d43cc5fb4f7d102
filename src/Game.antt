-- ===== src/Game.antt =====
-- src/application/game-service.ts and src/db/game-repository.ts: the game on the database. Each
-- public method is one transaction. The reading of the clock is an argument, one for a transaction.
pub mod Outgoing
pub mod Leaderboard
pub mod Submissions
pub mod Completion
pub mod Acceptance
pub mod Breaking
pub mod Messages
pub mod Control
pub mod Branches
pub mod Ordering
pub mod Recording
pub mod Contents
pub mod Charging
pub mod Cancelling
