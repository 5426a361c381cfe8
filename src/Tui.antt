-- ===== src/Tui.antt =====
-- The terminal interface (internal/tui): the model of model.go, and what update.go and commands.go
-- make of a message. What view.go draws is not modelled.
pub mod State
pub mod Moves
pub mod Effects
pub mod Accounts
pub mod Send
pub mod Tokens
pub mod Holdings
pub mod Pick
pub mod Update
pub mod Invariant
pub mod Answers
pub mod Ranges
pub mod Rules
pub mod AccountSafety
pub mod SendSafety
pub mod TokenSafety
pub mod HoldingSafety
pub mod ListSafety
pub mod PickSafety
pub mod Safety
pub mod Payment
