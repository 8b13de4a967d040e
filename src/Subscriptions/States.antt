-- ===== src/Subscriptions/States.antt =====
-- app/services/subscriptions.py: `_ALLOWED`.
use skladbase.Prelude.{Bool, true, false}
use skladbase.Models.{SubStatus}

unfoldable pub allowed : SubStatus → SubStatus → Bool
allowed SubStatus.trial SubStatus.active = true
allowed SubStatus.trial SubStatus.expired = true
allowed SubStatus.trial SubStatus.canceled = true
allowed SubStatus.active SubStatus.past_due = true
allowed SubStatus.active SubStatus.canceled = true
allowed SubStatus.active SubStatus.expired = true
allowed SubStatus.past_due SubStatus.active = true
allowed SubStatus.past_due SubStatus.expired = true
allowed SubStatus.past_due SubStatus.canceled = true
allowed SubStatus.canceled SubStatus.active = true
allowed SubStatus.canceled SubStatus.expired = true
allowed SubStatus.expired SubStatus.active = true
allowed _ _ = false
