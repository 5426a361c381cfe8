-- ===== src/AppLaws.antt =====
-- What the operations of the application (internal/scalegraph/app.go) guarantee.
pub mod Preserves
pub mod Everywhere
pub mod Invariant
pub mod Frame
pub mod Sound
pub mod Keyed
pub mod Transfer
pub mod Total
pub mod TwoSided
pub mod Atomic
pub mod Replay
