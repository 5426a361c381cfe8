-- ===== src/Channel.antt =====
-- Clients and server around the request channel (sendRequest of internal/server/client.go; run,
-- drainRequests and Stop of internal/server/server.go). A call is one execution of sendRequest, with
-- its response channel; calls are numbered as their requests enter the channel, in place of the
-- text of a request's ID. Every step of a goroutine on a channel is a step of the system, in any
-- order. A call that never gets its request into the channel leaves no trace here.
pub mod Order
pub mod Serial
pub mod Shutdown
use sg_emulator.Base.{
  ⊤, ℕ, suc, ◌<◌, ◌≡◌, Bool, true, false, Option, none, some, List, [], ◌∷◌, ◌++◌, length, ◌==◌,
  if◌then◌else◌,
}
use sg_emulator.Base.Action.{Result, ok, err, panic}
use sg_emulator.Errors.{Error, server_shutting_down}
use sg_emulator.App.{App}
use sg_emulator.Server.{Request, Response, Environment, Draw, handle_request}
use sg_emulator.Client.{Delivery}

-- The `make(chan messages.Request, 1000)` of the server.
abbrev pub capacity : ℕ
capacity = 1000

-- A response channel, of capacity 1; it is closed when its call returns.
pub data Mailbox : Type 0 where
  empty closed : Mailbox
  holding : Delivery → Mailbox

-- The `select` with a `default`, inside the function that recovers: a full channel is left as it
-- is, and the panic of sending on a closed one is caught.
unfoldable pub post : Delivery → Mailbox → Mailbox
post d Mailbox.empty = Mailbox.holding d
post d (Mailbox.holding e) = Mailbox.holding e
post d Mailbox.closed = Mailbox.closed

-- A `messages.Request`; the response channel goes by the number of the call.
pub record Queued : Type 0 where
  pub call : ℕ
  pub request : Request

abbrev pub Mailboxes : Type 0
Mailboxes = ℕ → Mailbox

unfoldable pub change : ℕ → (Mailbox → Mailbox) → Mailboxes → Mailboxes
change c f boxes x = if x == c then f (boxes x) else boxes x

-- `handled` is no variable of the program: it records the requests that `run` has handled.
pub record System : Type 0 where
  pub app : App
  pub queue : List Queued
  pub boxes : Mailboxes
  pub calls : ℕ
  pub is_cancelled : Bool
  pub handled : List (Draw × Queued)

-- A server that has been started.
unfoldable pub initial : App → System
initial app = record {
  app = app;
  queue = [];
  boxes = λ c. Mailbox.closed;
  calls = 0;
  is_cancelled = false;
  handled = [];
}

-- A new response channel, and the request put behind the others.
unfoldable pub submit : Request → System → System
submit r s = record s {
  queue = s.queue ++ (record { call = s.calls; request = r } ∷ []);
  boxes = change s.calls (λ m. Mailbox.empty) s.boxes;
  calls = suc s.calls;
}

-- The answer to a request; there is none if the process has crashed.
abbrev pub delivery : Result Error Response → Option Delivery
delivery (ok resp) = some (Delivery.answered resp)
delivery (err e) = some (Delivery.refused e)
delivery panic = none

-- One round of `run`, with the request that stood first and what `handleRequest` has made of it.
unfoldable pub serve : Draw → Queued → List Queued → Delivery → App → System → System
serve draw q rest d app s = record s {
  app = app;
  queue = rest;
  boxes = change q.call (post d) s.boxes;
  handled = s.handled ++ ((draw, q) ∷ []);
}

-- One round of `drainRequests`.
unfoldable pub drain : Queued → List Queued → System → System
drain q rest s = record s {
  queue = rest;
  boxes = change q.call (post (Delivery.refused server_shutting_down)) s.boxes;
}

-- A call returns, with its answer or without, and its response channel is closed.
unfoldable pub return_from : ℕ → System → System
return_from c s = record s { boxes = change c (λ m. Mailbox.closed) s.boxes }

-- Of the two cases of the `select` in `run` either can be taken while the server is told to stop; that
-- a request is served after draining has begun is allowed here, though the code does not do it.
pub data Step (env : Environment) (s : System) : System → Type 0 where
  submitted : (r : Request) → length s.queue < capacity → Step env s (submit r s)
  served :
      (draw : Draw) (q : Queued) (rest : List Queued) (d : Delivery) (app : App)
      → s.queue ≡ q ∷ rest
      → delivery (handle_request env draw q.request s.app).0 ≡ some d
      → (handle_request env draw q.request s.app).1 ≡ app
      → Step env s (serve draw q rest d app s)
  cancelled : Step env s (record s { is_cancelled = true })
  drained :
      (q : Queued) (rest : List Queued)
      → s.is_cancelled ≡ true
      → s.queue ≡ q ∷ rest
      → Step env s (drain q rest s)
  returned : (c : ℕ) → Step env s (return_from c s)

-- The systems that can arise.
pub data Reach (env : Environment) (app : App) : System → Type 0 where
  start : Reach env app (initial app)
  later : {s t : System} → Reach env app s → Step env s t → Reach env app t
