-- ===== src/Channel/Serial.antt =====
-- Concurrent calls are served as if one after another (internal/server/client.go and
-- internal/server/server.go).
use mathlib.Core.Option.{some-injective}
use mathlib.Core.List.{append_assoc}
use sg_emulator.Base.{
  ℕ, ◌≡◌, refl, sym, ◌∙◌, ap, Option, none, some, List, [], ◌∷◌, ◌++◌, ◌==◌, ==_iff, arith, ◌⊎◌,
  inl, inr, Bool-cases,
}
use sg_emulator.Base.Action.{Result, ok, err, panic}
use sg_emulator.Errors.{Error, server_shutting_down}
use sg_emulator.App.{App}
use sg_emulator.Server.{
  Request, Response, Environment, Draw, handle_request, run, survive, and_then,
}
use sg_emulator.Client.{Delivery}
use sg_emulator.Channel.{
  Mailbox, post, Queued, Mailboxes, change, System, initial, submit, delivery, serve, drain,
  return_from, Step, Reach,
}

-- The requests of a sequence of calls.
unfoldable pub requests : List (Draw × Queued) → List (Draw × Request)
requests [] = []
requests ((draw, q) ∷ rest) = (draw, q.request) ∷ requests rest

-- What the process survives, it goes on from.
and_then-some :
    (o : Option App) (f : App → Option App) (app : App) → o ≡ some app → and_then o f ≡ f app
and_then-some o f app e = rw e refl

and_then_inv :
    (o : Option App) (f : App → Option App) (app' : App)
    → and_then o f ≡ some app'
    → (app : App) × (o ≡ some app) × (f app ≡ some app')
and_then_inv none f app' e = cc
and_then_inv (some app) f app' e = (app, refl, e)

delivered_survives :
    (r : Result Error Response × App) (d : Delivery) → delivery r.0 ≡ some d → survive r ≡ some r.1
delivered_survives (ok x, a) d e = refl
delivered_survives (err x, a) d e = refl
delivered_survives (panic, a) d e = cc

module _ (env : Environment) where
  -- One more request at the end of a run.
  run-requests-snoc :
      (draw : Draw) (q : Queued) (l : List (Draw × Queued)) (app app1 : App) (d : Delivery)
      → run env (requests l) app ≡ some app1
      → delivery (handle_request env draw q.request app1).0 ≡ some d
      → run env (requests (l ++ ((draw, q) ∷ []))) app
        ≡ some (handle_request env draw q.request app1).1
  unfolding run requests
  run-requests-snoc draw q [] app app1 d e k =
      let same = some-injective _ _ e in
      and_then-some (survive (handle_request env draw q.request app)) (λ x. some x) _
        (delivered_survives (handle_request env draw q.request app) d (rw same k))
      ∙ ap (λ a. some (handle_request env draw q.request a).1) same
  run-requests-snoc draw q (p ∷ l) app app1 d e k =
      let (a, e1, e2) =
        and_then_inv (survive (handle_request env p.0 p.1.request app)) (run env (requests l)) app1
          e in
      and_then-some _ (run env (requests (l ++ ((draw, q) ∷ [])))) a e1
      ∙ run-requests-snoc draw q l a app1 d e2 k

  module _ (app : App) where
    -- The request of call `c` was handled, after these others, and `d` is the answer to it.
    pub record Served (handled : List (Draw × Queued)) (c : ℕ) (d : Delivery) : Type 0 where
      pub before : List (Draw × Queued)
      pub following : List (Draw × Queued)
      pub draw : Draw
      pub own : Queued
      pub app_then : App
      pub split : handled ≡ before ++ ((draw, own) ∷ following)
      pub is_own : own.call ≡ c
      pub ran_before : run env (requests before) app ≡ some app_then
      pub answer : delivery (handle_request env draw own.request app_then).0 ≡ some d

    abbrev Answer : List (Draw × Queued) → ℕ → Delivery → Type 0
    Answer handled c d = (d ≡ Delivery.refused server_shutting_down) ⊎ Served handled c d

    -- The accounts are those of the handled requests one after another, and whatever answer waits
    -- for a call is either the refusal of a server that shuts down or the answer to the request of
    -- this very call, in that order.
    pub record IsSerial (s : System) : Type 0 where
      pub ran : run env (requests s.handled) app ≡ some s.app
      pub answers : (c : ℕ) (d : Delivery) → s.boxes c ≡ Mailbox.holding d → Answer s.handled c d

    Answer-snoc :
        (l : List (Draw × Queued)) (p : Draw × Queued) (c : ℕ) (d : Delivery)
        → Answer l c d
        → Answer (l ++ (p ∷ [])) c d
    Answer-snoc l p c d (inl e) = inl e
    Answer-snoc l p c d (inr k) = inr (record {
      before = k.before;
      following = k.following ++ (p ∷ []);
      draw = k.draw;
      own = k.own;
      app_then = k.app_then;
      split =
          ap (λ x. x ++ (p ∷ [])) k.split
          ∙ append_assoc k.before ((k.draw, k.own) ∷ k.following) (p ∷ []);
      is_own = k.is_own;
      ran_before = k.ran_before;
      answer = k.answer;
    })

    -- A changed mailbox holds what the change made of it, any other what it held.
    holding-change :
        (boxes : Mailboxes) (c x : ℕ) (f : Mailbox → Mailbox) (d : Delivery)
        → change c f boxes x ≡ Mailbox.holding d
        → ((x ≡ c) × (f (boxes c) ≡ Mailbox.holding d)) ⊎ (boxes x ≡ Mailbox.holding d)
    unfolding change
    holding-change boxes c x f d e = elim (Bool-cases (x == c)) [
      | inl same ↦ let at : x ≡ c = (==_iff x c).0 same in inl (at, ground (arith, at, e))
      | inr other ↦ inr (ground (arith, other, e))
    ]

    holding-post :
        (d e : Delivery) (m : Mailbox)
        → post d m ≡ Mailbox.holding e
        → (e ≡ d) ⊎ (m ≡ Mailbox.holding e)
    unfolding post
    holding-post d e Mailbox.empty h = inl cc
    holding-post d e (Mailbox.holding x) h = inr h
    holding-post d e Mailbox.closed h = cc

    Step-IsSerial : {s t : System} → Step env s t → IsSerial s → IsSerial t
    unfolding submit serve drain return_from
    Step-IsSerial {s} (Step.submitted r room) i = record {
      ran = i.ran;
      answers = λ c d e. elim (holding-change s.boxes s.calls c (λ m. Mailbox.empty) d e) [
        | inl (at, h) ↦ cc
        | inr h ↦ i.answers c d h
      ];
    }
    Step-IsSerial {s} (Step.served draw q rest d a first answered left) i = record {
      ran = run-requests-snoc draw q s.handled app s.app d i.ran answered ∙ ap some left;
      answers = λ c e h. elim (holding-change s.boxes q.call c (post d) e h) [
        | inl (at, h1) ↦ elim (holding-post d e (s.boxes q.call) h1) [
          | inl own ↦ inr (record {
            before = s.handled;
            following = [];
            draw = draw;
            own = q;
            app_then = s.app;
            split = refl;
            is_own = sym at;
            ran_before = i.ran;
            answer = answered ∙ ap some (sym own);
          })
          | inr old ↦ Answer-snoc s.handled (draw, q) c e (i.answers c e (ap s.boxes at ∙ old))
        ]
        | inr h1 ↦ Answer-snoc s.handled (draw, q) c e (i.answers c e h1)
      ];
    }
    Step-IsSerial Step.cancelled i = record { ran = i.ran; answers = i.answers }
    Step-IsSerial {s} (Step.drained q rest down first) i = record {
      ran = i.ran;
      answers = λ c d e.
          elim (holding-change s.boxes q.call c (post (Delivery.refused server_shutting_down)) d
            e) [
              | inl (at, h) ↦ elim (holding-post _ d (s.boxes q.call) h) [
                | inl shut ↦ inl shut
                | inr old ↦ i.answers c d (ap s.boxes at ∙ old)
              ]
              | inr h ↦ i.answers c d h
            ];
    }
    Step-IsSerial {s} (Step.returned x) i = record {
      ran = i.ran;
      answers = λ c d e. elim (holding-change s.boxes x c (λ m. Mailbox.closed) d e) [
        | inl (at, h) ↦ cc
        | inr h ↦ i.answers c d h
      ];
    }

    pub Reach-IsSerial : (s : System) → Reach env app s → IsSerial s
    unfolding initial run requests
    Reach-IsSerial s Reach.start = record { ran = refl; answers = λ c d e. cc }
    Reach-IsSerial s (Reach.later r step) = Step-IsSerial step (Reach-IsSerial _ r)
