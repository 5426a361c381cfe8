-- ===== src/Account.antt =====
-- Accounts (internal/scalegraph/account.go): the state, the handler and the rollback of each type
-- of transaction, and the two operations that dispatch on the type.
mod State
mod Slots
mod Handlers
mod Rollbacks
mod Append
unfoldable pub use State.*
unfoldable pub use Slots.*
unfoldable pub use Handlers.*
unfoldable pub use Rollbacks.*
unfoldable pub use Append.*
