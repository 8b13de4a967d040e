-- ===== src/Samples/JobRuns.antt =====
-- The theorems on the periodic jobs, on the sample tables.
use skladbase.Prelude.{
  ℕ, ◌+◌, ◌≤◌, ◌≡◌, refl, String, Bool, true, false, Option, some, none, All, Memᴰ, ◌⊎◌, length, [],
  ◌∷◌, arith, keep, map, if◌then◌else◌,
}
use skladbase.Prelude.Tables.{select_one, find}
use skladbase.Models.{server_error, SubStatus, Subscription, Db, Billing, days, hours}
use skladbase.Session.{Session, ok, err}
use skladbase.Subscriptions.{mark_past_due}
use skladbase.Inventory.Invariant.{Inv}
use skladbase.Inventory.Calls.{opened_on}
use skladbase.Tasks.{
  ChargeReport, is_lapsed, expire_subscriptions, is_chargeable, charge_due_card_subscriptions,
  is_dead, release_expired_reservations, is_low, flagged, low_stock_scan,
}
use skladbase.Tasks.Expiry.{ended, Commits, expire_subscriptions-map}
use skladbase.Tasks.Dead.{release_expired_reservations-completes}
use skladbase.Tasks.LowStock.{low_message, low_stock_scan-map}
use skladbase.Tasks.Turns.{answers, approves}
use skladbase.Tasks.Charges.{Answered, charge_due_card_subscriptions-Settles}
use skladbase.Tasks.Grace.{mark_past_due-grace}
use skladbase.Session.Whole.{opened}
use skladbase.Samples.ParcelRuns.{cafe}
use skladbase.Samples.Shelf.{shelf, at_first, shelf-Inv}
use skladbase.Samples.BillingRuns.{lapsed, books}

abbrev due : Subscription
due = record lapsed { status = SubStatus.active; auto_renew = true }

abbrev renewing : Billing
renewing = record books { subscriptions = due ∷ [] }

-- The provider of the sample is not to be reached.
abbrev silent : Option String → String → ℕ → Option Bool
silent token reference amount = none

abbrev plain_ref : ℕ → ℕ → String
plain_ref shop_id at = "sb"

abbrev overdue : Billing
overdue = record books {
  subscriptions = record lapsed { status = SubStatus.past_due; auto_renew = true } ∷ [];
}

expire_subscriptions-map_example :
    let t : Billing = record overdue {
      subscriptions = map (λ s. if is_lapsed 1000 s then ended s else s) overdue.subscriptions;
    } in
    Commits
      (cafe ∷ [])
      (keep (is_lapsed 1000) overdue.subscriptions)
      t
      (expire_subscriptions (cafe ∷ []) 1000 (opened overdue))
    × (keep (is_lapsed 1000) t.subscriptions ≡ [])
unfolding find
expire_subscriptions-map_example =
    expire_subscriptions-map (cafe ∷ []) 1000 2 overdue (omega arith, tt) (refl, tt)

charge_due_card_subscriptions-Settles_example :
    let due = keep (is_chargeable 1000) renewing.subscriptions in
    let pass = charge_due_card_subscriptions (cafe ∷ []) silent plain_ref 1000 (opened renewing) in
    (All (Answered (cafe ∷ []) silent plain_ref 1000 renewing.plans) due
      × (c : ChargeReport) × (t : Billing) × (pass ≡ (ok c, opened t))
      × (c.count ≡ length (keep (approves (cafe ∷ []) silent plain_ref 1000 renewing.plans) due)))
    ⊎ ((s : Subscription) × Memᴰ s due
        × (answers (cafe ∷ []) silent plain_ref 1000 renewing.plans s ≡ false)
        × (t : Billing) × (pass ≡ (err server_error, record { committed = renewing; work = t })))
unfolding find
charge_due_card_subscriptions-Settles_example =
    charge_due_card_subscriptions-Settles (cafe ∷ []) silent plain_ref 1000 renewing (refl, tt)

mark_past_due-grace_example :
    (g : Subscription) × (t : Billing) × (mark_past_due 1000 due renewing ≡ (ok g, t))
    × (find Subscription.id 1 t.subscriptions ≡ some g)
    × (g.status ≡ SubStatus.past_due)
    × ((u : ℕ) → u ≤ 1000 + days 3 → is_lapsed u g ≡ false)
    × ((u : ℕ) → 1000 + days 3 + 1 ≤ u + hours 12 → is_chargeable u g ≡ true)
unfolding is_chargeable find
mark_past_due-grace_example = mark_past_due-grace 1000 due renewing refl refl

release_expired_reservations-completes_example :
    (t : Session) × (release_expired_reservations 60 (opened_on shelf)
      ≡ (ok (keep (is_dead 60) shelf.reservations), t))
    × Inv at_first t.committed
    × (keep (is_dead 60) t.committed.reservations ≡ [])
unfolding select_one
release_expired_reservations-completes_example =
    release_expired_reservations-completes at_first 60 shelf shelf-Inv (refl, (refl, tt))

low_stock_scan-map_example :
    (t : Db) × (low_stock_scan 60 (opened_on shelf)
      ≡ (ok (map low_message (keep is_low shelf.variants)), opened_on t))
    × (t ≡ record shelf {
      variants = map (λ v. if is_low v then flagged 60 v else v) shelf.variants;
    })
    × (low_stock_scan 70 (opened_on t) ≡ (ok [], opened_on t))
low_stock_scan-map_example = low_stock_scan-map 60 70 2 shelf (omega arith, tt)
