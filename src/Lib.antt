-- ===== src/Lib.antt =====
-- The emulator of a ledger: clients send requests, signed where money or tokens of an account are
-- concerned, to one server, which verifies each request and runs it on the accounts one at a time.
-- An account holds a balance, tokens, a minimum balance requirement (mbr) for what it keeps, the
-- count of transactions that it has signed, and a blockchain of its transactions. A transaction
-- between two accounts is appended to both, and rolled back on the first if the second refuses it.
--
-- Which file models what:
--   Errors: the error values; Base: bytes, integers in Go's widths, float64 amounts, association lists, and Action,
--     the monad of a method on a mutable object, with errors and the panic of a nil dereference.
--   Id: internal/scalegraph/id.go (ScalegraphIdFromString is from_string, String is to_string).
--   Token: internal/scalegraph/token.go (TokenEqual is token_equal, newToken is new_token).
--   Transaction: internal/scalegraph/transaction.go, one constructor for each type of transaction.
--   Chain: internal/scalegraph/block.go and internal/scalegraph/blockchain.go.
--   Account: internal/scalegraph/account.go. Account/State is the struct and its readers,
--     Account/Slots what is done to the token store (mintToken, addTokenFromTransfer and so on),
--     Account/Handlers the functions handleXTx (handle_x), Account/Rollbacks the functions
--     rollbackXTx (rollback_x), Account/Append appendTransaction and rollbacklatestTransaction.
--   Requests: the structs of internal/scalegraph/requests.go and the payloads of
--     internal/crypto/signer.go.
--   App: internal/scalegraph/app.go. App/State has what the operations share, App/Money is Transfer,
--     Mint and CreateAccountWithKeys, App/Tokens the token operations, App/Queries the readers.
--   Verify: Verify/Envelope is internal/verifier/verifier.go, Verify/Checks is VerifyRequest of
--     internal/crypto/verifiable.go and the Verify methods of internal/scalegraph/requests.go, and
--     Verify/External has the parameters.
--   Signer: Sign and CreateSignedEnvelope of internal/crypto/signer.go; Signer/Accepted is about what
--     the verifier makes of it.
--   Server: the handlers, handleRequest and the loop of internal/server/server.go.
--   Registry: internal/server/registry.go (GetKClosest is get_k_closest) and the identifier and
--     transports of internal/server/virtual_app.go. Registry/Laws takes the registry as a map,
--     Registry/Distance, Registry/Sorting and Registry/Nearest are about the nearest apps.
--   Events: publishEvent of internal/server/server.go, over Events/Build, which is
--     internal/server/event_builder.go; handle_and_publish is handleRequest with its event.
--     Events/Laws is about what is published, Events/Announced about what is not left out.
--   Client: internal/server/client.go; x_request is what a method XSigned sends. Client/Sealed
--     compares it with what the server accepts.
--   Channel: the client's sendRequest and the server's run and drainRequests as steps of one system,
--     with a queue of requests and a mailbox for each call. Channel/Order, Channel/Serial and
--     Channel/Shutdown are about every interleaving of the steps.
--   Rest: the handlers of internal/transport/rest/rest.go (handleTransfer is rest_transfer).
--     Rest/OwnAccount composes one of them with the client and the server.
--   Connect: the handlers of internal/transport/connect/connect.go (Transfer is connect_transfer),
--     over Connect/Convert, which is internal/transport/connect/converters.go. Connect/EndToEnd
--     composes the transfer with the client and the server, Connect/Subscribe is who is admitted to a
--     stream of events.
--   Tui: the terminal interface. Tui/State is internal/tui/model.go, with the world that a message
--     meets. Tui/Moves and Tui/Effects have what the handlers of internal/tui/update.go share, and
--     createAccountWithCA of internal/tui/commands.go. The handlers (updateX is update_x) are in
--     Tui/Accounts, Tui/Send, Tui/Tokens, Tui/Holdings and Tui/Pick, Update in Tui/Update.
--     Tui/Invariant says what holds between two messages, Tui/Ranges, Tui/Answers and Tui/Rules have
--     what its proof shares, and the modules Tui/XSafety and Tui/Safety are about it, view by view.
--     Tui/Payment follows a payment through the signer, the client and the server.
--   AccountLaws, AppLaws, VerifyLaws and ServerLaws, with Chain/Laws and Id/RoundTrip, hold the
--     proofs; Examples holds accounts, requests and an environment with concrete values.
--
-- How the code is represented:
--   An amount of money, a float64 in the code, is the whole number of units of 2^-1074 that it is, as
--     every finite float64 is one. The sums and differences that the accounts take (⊞ and ⊟ of
--     Base/Amount) are rounded to 53 significant bits, ties to even, as IEEE 754 says; the costs 0.1
--     are the float64 nearest to a tenth. Amounts are finite: infinities, NaN and the overflow of a sum
--     beyond the largest float64 are left out (a signed amount is finite, as JSON has no other).
--     Where a theorem needs that rounding changes nothing it is a condition of the theorem. The exact
--     +ℤ and -ℤ occur only in times and in what theorems compare with.
--   A uint64 is a natural number with its wrap-around written out (inc64, dec64), an int64 an integer.
--   A map is an association list; a token store, whose order the code does not see, is compared by
--     its look-ups. The pointer &Token{} is the value placeholder, tested as the code does.
--   A pointer to an account in a transaction is the account's identifier, which never changes; a
--     method call through a pointer is on_account, which reads the account again and writes it back.
--   A token in a recorded transaction is a value, the token as it was recorded. In the code it is a
--     pointer, shared with the token store of the holder, through which a freeze or an unfreeze sets
--     the flag frozen: the code's transactions that record the token, in the chains of its minter and
--     of earlier holders, show the new flag as well. Nothing that is modelled reads this flag from a
--     transaction of a chain; what is said of accounts that a request does not name leaves the tokens
--     inside recorded transactions out. At any time one store at most has the token.
--   An account in an answer is the account in the state in which the request was handled; in the code
--     it is a pointer, which the transports and the terminal interface read a little later.
--   A pointer that can be nil is an Option; dereferencing it when it is nil is the result panic, which
--     ends the loop of the server.
--   Every operation holds the application's lock or runs on the server's one goroutine. Server has the
--     requests as one sequence; in Channel calls enter, are served, return and give up in any order.
--     Random identifiers, the readings of the clock, and the key and certificate that the CA makes
--     are arguments.
--   SHA-1, Ed25519, X.509 and the JSON text of a payload are the parameters Crypto and PayloadBytes.
--     Nothing is assumed of them, except in Events/Announced that derived identifiers are bytes.
--   In the terminal interface a pointer to an account is the account's identifier, and what is behind
--     it is read when it is used; an index out of range is the outcome crash. What the server answers
--     and what the CA's store holds may differ from message to message.
--   The loop of the server runs over a list, and each definition is structural; one has fuel, excess of
--     Base/Amount, which halves a number as often as it must, and the number itself is enough.
--     Base/Amount/Laws is about it and about what rounding gives.
--   A sound account (IsSound) stands under its own identifier, has a count that fits a uint64, and has
--     a well-formed chain; a sound application (AllSound) has only such accounts.
--
-- Not modelled: what the terminal interface draws, the MCP transport, the streams of events, the
-- channel of events and the goroutines of a virtual app, the CA's files, PEM and key generation, logs,
-- traces, locks, and the printed forms of values: they are I/O, wrappers or test support around the
-- parts above. The generated protobuf code is not in the repository: how an event is written is a
-- parameter, and a message is a record of what its getters yield.
pub mod Base
pub mod Errors
pub mod Id
pub mod Token
pub mod Transaction
pub mod Chain
pub mod Account
pub mod AccountLaws
pub mod Requests
pub mod App
pub mod AppLaws
pub mod Verify
pub mod Server
pub mod Signer
pub mod Tui
pub mod Registry
pub mod Events
pub mod Client
pub mod Channel
pub mod Rest
pub mod Connect
pub mod VerifyLaws
pub mod ServerLaws
pub mod Examples
