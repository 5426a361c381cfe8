-- ===== src/AccountLaws.antt =====
-- What the operations of an account (internal/scalegraph/account.go) guarantee.
pub mod Atomic
pub mod Nonce
pub mod Reversal
pub mod Soundness
pub mod Methods
pub mod Keyed
pub mod Balance
