-- ===== src/Tasks/Grace.antt =====
-- app/tasks.py: the grace after a refused charge.
use skladbase.Prelude.{ℕ, ◌+◌, ◌≤◌, ◌≡◌, refl, true, false, ◌&&◌, some, arith, inl, inr, Bool-cases}
use skladbase.Models.{SubStatus, Subscription, Billing, same_status, is_card, days, hours}
use skladbase.Session.{ok}
use skladbase.Subscriptions.{mark_past_due, transition, allowed, past_due_grace_days}
use skladbase.Prelude.Tables.{find, save}
use skladbase.Subscriptions.Machine.{find-saved}
use skladbase.Tasks.Renewals.{is_lapsed, is_chargeable}

-- A subscription in the grace that began at `now`.
module _ (now : ℕ) (g : Subscription) where
  graced-is_lapsed :
      g.status ≡ SubStatus.past_due
      → g.current_period_end ≡ some (now + days 3)
      → (u : ℕ) → u ≤ now + days 3
      → is_lapsed u g ≡ false
  unfolding is_lapsed
  graced-is_lapsed at end u h = rw end (ground arith)

  graced-is_chargeable :
      g.status ≡ SubStatus.past_due
      → g.current_period_end ≡ some (now + days 3)
      → is_card g.provider && g.auto_renew ≡ true
      → (u : ℕ) → now + days 3 + 1 ≤ u + hours 12
      → is_chargeable u g ≡ true
  unfolding is_chargeable
  graced-is_chargeable at end card u h = rw (at, end) (ground arith)

-- A refused charge of a stored subscription that is due stores it as past due, with three days in
-- which it does not lapse; from twelve hours before their end on it is due again, so that one more
-- refusal starts the three days anew.
pub mark_past_due-grace :
    (now : ℕ) (s : Subscription) (b : Billing)
    → is_chargeable now s ≡ true
    → find Subscription.id s.id b.subscriptions ≡ some s
    → (g : Subscription) × (t : Billing) × (mark_past_due now s b ≡ (ok g, t))
      × (find Subscription.id s.id t.subscriptions ≡ some g)
      × (g.status ≡ SubStatus.past_due)
      × ((u : ℕ) → u ≤ now + days 3 → is_lapsed u g ≡ false)
      × ((u : ℕ) → now + days 3 + 1 ≤ u + hours 12 → is_chargeable u g ≡ true)
unfolding is_chargeable mark_past_due transition allowed
mark_past_due-grace now s b e stored =
    let card : is_card s.provider && s.auto_renew ≡ true = ground arith in
    elim (Bool-cases (same_status SubStatus.past_due s.status)) [
      | inl stays ↦
          let at : s.status ≡ SubStatus.past_due = ground arith in
          let g : Subscription = record s {
            current_period_end = some (now + days past_due_grace_days);
          } in
          rw stays (
            g,
            _,
            refl,
            find-saved s.id g b.subscriptions refl stored,
            at,
            graced-is_lapsed now g at refl,
            graced-is_chargeable now g at refl card,
          )
      | inr moves ↦
          let a : allowed s.status SubStatus.past_due ≡ true = ground arith in
          let g : Subscription = record s {
            status = SubStatus.past_due;
            current_period_end = some (now + days past_due_grace_days);
          } in
          rw (moves, a)
            (
              g,
              _,
              refl,
              find-saved s.id g
                  (save Subscription.id (record s { status = SubStatus.past_due }) b.subscriptions)
                  refl
                  (find-saved s.id (record s { status = SubStatus.past_due }) b.subscriptions refl
                    stored),
              refl,
              graced-is_lapsed now g refl refl,
              graced-is_chargeable now g refl refl card,
            )
    ]
