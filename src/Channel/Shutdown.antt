-- ===== src/Channel/Shutdown.antt =====
-- Shutting down (drainRequests of internal/server/server.go): no call is left waiting.
use mathlib.Core.List.{Mem, Mem-prop, mem-cons, not-mem-nil}
use mathlib.Core.Logic.Or
use sg_emulator.Base.{
  ℕ, ◌≡◌, refl, subst, ap, true, false, List, [], ◌∷◌, ◌==◌, ==_iff, arith, ◌⊎◌, inl, inr,
  Bool-cases,
}
use sg_emulator.Errors.{server_shutting_down}
use sg_emulator.Server.{Environment}
use sg_emulator.Client.{Delivery}
use sg_emulator.Channel.{Mailbox, post, Queued, Mailboxes, change, System, drain, Step}

-- Rounds of the draining loop alone, up to the system `t`.
pub data Drains (env : Environment) (t : System) : System → Type 0 where
  done : Drains env t t
  round :
      {s : System} (q : Queued) (rest : List Queued)
      → Step env s (drain q rest s)
      → Drains env t (drain q rest s)
      → Drains env t s

abbrev pub shut : Mailbox
shut = Mailbox.holding (Delivery.refused server_shutting_down)

-- What waits in a mailbox is not replaced.
change-post_holding :
    (boxes : Mailboxes) (c x : ℕ) (d e : Delivery)
    → boxes x ≡ Mailbox.holding e
    → change c (post d) boxes x ≡ Mailbox.holding e
unfolding change post
change-post_holding boxes c x d e h = elim (Bool-cases (x == c)) [
  | inl same ↦ rw same (rw h refl)
  | inr other ↦ rw other h
]

-- A mailbox that is empty is filled, or is not the one in question.
change-post_empty :
    (boxes : Mailboxes) (c x : ℕ) (d : Delivery)
    → boxes x ≡ Mailbox.empty
    → ((x ≡ c) × (change c (post d) boxes x ≡ Mailbox.holding d))
      ⊎ ((x == c ≡ false) × (change c (post d) boxes x ≡ Mailbox.empty))
unfolding change post
change-post_empty boxes c x d h = elim (Bool-cases (x == c)) [
  | inl same ↦ inl ((==_iff x c).0 same, rw same (rw h refl))
  | inr other ↦ inr (other, rw other h)
]

module _ (env : Environment) where
  -- The server has run dry, has changed no account, has left every answer where it was, and has
  -- answered all who waited.
  pub record Drained (s t : System) : Type 0 where
    pub steps : Drains env t s
    pub dry : t.queue ≡ []
    pub same_accounts : t.app ≡ s.app
    pub kept :
        (x : ℕ) (e : Delivery) → s.boxes x ≡ Mailbox.holding e → t.boxes x ≡ Mailbox.holding e
    pub told : (q : Queued) → Mem q s.queue → s.boxes q.call ≡ Mailbox.empty → t.boxes q.call ≡ shut

  drains :
      (l : List Queued) (s : System)
      → s.queue ≡ l
      → s.is_cancelled ≡ true
      → (t : System) × Drained s t
  unfolding drain
  drains [] s e c = (
    s,
    record {
      steps = Drains.done;
      dry = e;
      same_accounts = refl;
      kept = λ x d h. h;
      told = λ q m h. absurd (not-mem-nil (subst (Mem q) e m));
    },
  )
  drains (q ∷ l) s e c =
      let (t, k) = drains l (drain q l s) refl c in
      (
        t,
        record {
          steps = Drains.round q l (Step.drained q l c e) k.steps;
          dry = k.dry;
          same_accounts = k.same_accounts;
          kept = λ x d h. k.kept x d (change-post_holding s.boxes q.call x _ d h);
          told = λ p m h.
              elim (change-post_empty s.boxes q.call p.call (Delivery.refused server_shutting_down)
                h) [
                  | inl (at, full) ↦ k.kept p.call _ full
                  | inr (ne, still) ↦
                      k.told p
                        (Or.elim Mem-prop (mem-cons.0 (subst (Mem p) e m))
                          (λ eq.
                            absurd (ground (arith, ne, ==_iff p.call q.call, ap (λ z. z.call) eq)))
                          (λ later. later))
                        still
                ];
        },
      )

  -- Once the server has been told to stop, whatever waits in the channel, there are steps of the
  -- draining loop alone after which the channel is empty, no account has changed, every answer that
  -- was there is still there, and every call that waited without an answer has the refusal.
  pub shutdown_answers : (s : System) → s.is_cancelled ≡ true → (t : System) × Drained s t
  shutdown_answers s c = drains s.queue s refl c
