-- ===== src/ServerLaws.antt =====
-- What the server (internal/server/server.go) guarantees.
pub mod ReadOnly
pub mod Runs
pub mod Invariant
pub mod History
pub mod Money
pub mod Frame
pub mod Settled
