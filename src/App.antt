-- ===== src/App.antt =====
-- The application (internal/scalegraph/app.go): the accounts by identifier, and the operations that
-- the server runs. Logging, tracing and the locks are left out; the server runs one request after
-- another.
mod State
mod Money
mod Tokens
mod Queries
unfoldable pub use State.*
unfoldable pub use Money.*
unfoldable pub use Tokens.*
unfoldable pub use Queries.*
