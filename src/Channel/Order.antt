-- ===== src/Channel/Order.antt =====
-- The order of the calls (internal/server/client.go and internal/server/server.go).
use sg_emulator.Base.{ℕ, suc, ◌≤◌, subst, List, [], ◌∷◌, ◌++◌, arith}
use sg_emulator.App.{App}
use sg_emulator.Server.{Draw, Environment}
use sg_emulator.Channel.{Queued, System, initial, submit, serve, drain, return_from, Step, Reach}

module _ {A : Type 0} (number : A → ℕ) where
  -- The numbers grow from `lo` on, each at most once, and stay below `hi`.
  abbrev pub Ascends : ℕ → List A → ℕ → Type 0
  Ascends lo [] hi = lo ≤ hi
  Ascends lo (x ∷ xs) hi = (lo ≤ number x) × Ascends (suc (number x)) xs hi

  Ascends-snoc :
      (lo hi : ℕ) (xs : List A) (x : A)
      → Ascends lo xs hi
      → hi ≤ number x
      → Ascends lo (xs ++ (x ∷ [])) (suc (number x))
  Ascends-snoc lo hi [] x h le = (omega arith, omega arith)
  Ascends-snoc lo hi (y ∷ ys) x h le = (h.0, Ascends-snoc (suc (number y)) hi ys x h.1 le)

  Ascends_lower : (lo lo' hi : ℕ) (xs : List A) → lo' ≤ lo → Ascends lo xs hi → Ascends lo' xs hi
  Ascends_lower lo lo' hi [] le h = omega arith
  Ascends_lower lo lo' hi (x ∷ xs) le h = (omega (arith, h.0), h.1)

abbrev pub call_of : Draw × Queued → ℕ
call_of (draw, q) = q.call

-- The requests that were handled were handled in the order of their calls, each once; those that
-- wait stand in the same order, and come later.
pub record IsOrdered (s : System) : Type 0 where
  pub bound : ℕ
  pub handled : Ascends call_of 0 s.handled bound
  pub waiting : Ascends (λ q. q.call) bound s.queue s.calls

module _ (env : Environment) (app : App) where
  Step-IsOrdered : {s t : System} → Step env s t → IsOrdered s → IsOrdered t
  unfolding submit serve drain return_from
  Step-IsOrdered {s} (Step.submitted r room) i = record {
    bound = i.bound;
    handled = i.handled;
    waiting =
        Ascends-snoc (λ q. q.call) i.bound s.calls s.queue (record { call = s.calls; request = r })
          i.waiting (omega arith);
  }
  Step-IsOrdered {s} (Step.served draw q rest d a first answered left) i =
      let w = subst (λ l. Ascends (λ q. q.call) i.bound l s.calls) first i.waiting in
      record {
        bound = suc q.call;
        handled = Ascends-snoc call_of 0 i.bound s.handled (draw, q) i.handled w.0;
        waiting = w.1;
      }
  Step-IsOrdered Step.cancelled i = record {
    bound = i.bound;
    handled = i.handled;
    waiting = i.waiting;
  }
  Step-IsOrdered {s} (Step.drained q rest down first) i =
      let w = subst (λ l. Ascends (λ q. q.call) i.bound l s.calls) first i.waiting in
      record {
        bound = i.bound;
        handled = i.handled;
        waiting =
            Ascends_lower (λ q. q.call) (suc q.call) i.bound s.calls rest (omega (arith, w.0)) w.1;
      }
  Step-IsOrdered (Step.returned x) i = record {
    bound = i.bound;
    handled = i.handled;
    waiting = i.waiting;
  }

  -- In every system that can arise, by whatever interleaving of calls, the server has handled calls
  -- in the order in which their requests entered the channel, each at most once, and the waiting
  -- requests stand in this order behind them.
  pub Reach-IsOrdered : (s : System) → Reach env app s → IsOrdered s
  unfolding initial
  Reach-IsOrdered s Reach.start = record { bound = 0; handled = omega arith; waiting = omega arith }
  Reach-IsOrdered s (Reach.later r step) = Step-IsOrdered step (Reach-IsOrdered _ r)
