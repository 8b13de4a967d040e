-- ===== src/Inventory/History.antt =====
-- What holds after any history of requests, of any shops in any order.
use skladbase.Prelude.{ℕ, ◌≡◌, refl, ◌⊎◌, inl, inr, true, List, [], ◌∷◌}
use skladbase.Prelude.Int.{ℤ}
use skladbase.Models.{Db}
use skladbase.Session.{Session, Result, ok, err}
use skladbase.Inventory.Refines.{Ends}
use skladbase.Inventory.Effect.{Effect}
use skladbase.Inventory.Invariant.{Inv, Effect-Inv}
use skladbase.Inventory.Calls.{Call, Reply, call-Ends, opened_on, request, Request, history}

-- A call that is committed leaves the database as it was, or has one effect on it.
committed-Effect :
    (shop : ℕ) (d : Db) (out : Result Reply × Session)
    → Ends shop true (opened_on d) out
    → (out.1.committed ≡ d) ⊎ Effect shop d out.1.committed
committed-Effect shop d (err e, t) h = inl (rw h refl)
committed-Effect shop d (ok a, t) h = inr (rw h.1 h.0)

pub request-Effect :
    (now shop : ℕ) (c : Call) (d : Db)
    → (request now shop c d ≡ d) ⊎ Effect shop d (request now shop c d)
unfolding request
request-Effect now shop c d = committed-Effect shop d _ (call-Ends now shop c true (opened_on d))

-- One request keeps the invariant.
pub request-Inv :
    (base : ℕ → ℤ) (now shop : ℕ) (c : Call) (d : Db) → Inv base d → Inv base (request now shop c d)
request-Inv base now shop c d inv = elim (request-Effect now shop c d) [
  | inl same ↦ rw same inv
  | inr effect ↦ Effect-Inv base shop d _ inv effect
]

-- After any history of requests that starts from tables where the invariant holds: no variant has
-- more set aside than is on the shelf; what is set aside is exactly what its active reservations
-- hold; and the goods on the shelf and on the way are the initial stock and what the journal counts.
pub history-Inv : (base : ℕ → ℤ) (qs : List Request) (d : Db) → Inv base d → Inv base (history qs d)
unfolding history
history-Inv base [] d inv = inv
history-Inv base (q ∷ qs) d inv =
    history-Inv base qs (request q.at q.shop q.what d) (request-Inv base q.at q.shop q.what d inv)
