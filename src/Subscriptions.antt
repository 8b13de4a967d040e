-- ===== src/Subscriptions.antt =====
-- app/services/subscriptions.py: the state machine of a subscription and the operations of
-- `SubscriptionService`. The service flushes and its callers commit, so the state is that of one
-- transaction. `now` is what `utcnow()` returns.
pub mod States
pub mod Promo
pub mod Payments
pub mod Redemptions
pub mod Steps
pub mod Machine
use skladbase.Prelude.{
  ℕ, suc, ◌+◌, ◌*◌, String, Bool, true, false, ◌&&◌, not, Option, none, some, List, ◌∷◌, ◌==◌, ltb,
  if◌then◌else◌, is_some, is_text, is_at, has_text, str_eq,
}
use skladbase.Prelude.Int.{ℤ, pos}
use skladbase.Prelude.Tables.{select_one, find, save}
use skladbase.Models.{
  Error, subscription_error, bad_request, not_found, conflict, gone, SubStatus, SubProvider,
  SubPeriod, PaymentStatus, PromoType, Plan, Subscription, Payment, PromoCode, PromoRedemption,
  Billing, same_status, is_succeeded, is_redeemable, days,
}
use skladbase.Session.{Action, pure, raise, or_raise, gets, modify, raise_if, ◌>>=◌, ◌>>◌}
use States.{allowed}
unfoldable pub use States.{allowed}

abbrev pub trial_days : ℕ
trial_days = 7

abbrev pub past_due_grace_days : ℕ
past_due_grace_days = 3

unfoldable pub period_delta : SubPeriod → ℕ
period_delta SubPeriod.year = days 365
period_delta SubPeriod.month = days 30

abbrev pub set_sub : Subscription → Action Billing (Unit {0})
set_sub s = modify (λ b. record b { subscriptions = save Subscription.id s b.subscriptions })

-- `_transition`; the subscription with its new status comes back
unfoldable pub transition : Subscription → SubStatus → Action Billing Subscription
transition sub to =
    if same_status to sub.status
    then pure sub
    else if allowed sub.status to
    then set_sub (record sub { status = to }) >> pure (record sub { status = to })
    else raise (subscription_error bad_request)

-- From the later of now and the end of the current period.
unfoldable pub extension_base : ℕ → Option ℕ → ℕ
extension_base now none = now
extension_base now (some current_end) = if ltb now current_end then current_end else now

abbrev new_trial : ℕ → ℕ → Option Plan → ℕ → Subscription
new_trial now shop_id plan id = record {
  id = id;
  shop_id = shop_id;
  plan_id = elim plan [ none ↦ none | some p ↦ some p.id ];
  status = SubStatus.trial;
  provider = none;
  period = SubPeriod.month;
  trial_ends_at = some (now + days trial_days);
  current_period_end = some (now + days trial_days);
  auto_renew = false;
  is_comp = false;
  external_sub_id = none;
  renewal_reminder_sent = false;
  created_at = now;
  canceled_at = none;
}

abbrev add_sub : Subscription → Action Billing (Unit {0})
add_sub s = modify (λ b. record b {
  subscriptions = s ∷ b.subscriptions;
  next_subscription = suc b.next_subscription;
})

abbrev give_trial : ℕ → ℕ → Option Plan → Option Subscription → Action Billing Subscription
give_trial now shop_id plan (some existing) = pure existing
give_trial now shop_id plan none = do
  id ← gets Billing.next_subscription
  let sub = new_trial now shop_id plan id
  add_sub sub
  pure sub

unfoldable pub start_trial : ℕ → ℕ → Option Plan → Action Billing Subscription
start_trial now shop_id plan = do
  existing ← gets (λ b. select_one (λ s. s.shop_id == shop_id) b.subscriptions)
  give_trial now shop_id plan existing

-- What a payment was for, as the provider's message says.
pub record Receipt : Type 0 where
  pub provider : SubProvider
  pub plan : Plan
  pub period : SubPeriod
  pub amount : ℕ
  pub currency : String
  pub transaction_id : String
  pub recurring_token : Option String
  pub is_recurring : Bool
  pub auto_renew : Bool

abbrev pub is_payment : ℕ → String → Payment → Bool
is_payment shop_id transaction_id p =
    p.shop_id == shop_id && is_text p.external_id transaction_id && is_succeeded p.status

abbrev pub new_payment : ℕ → Subscription → Receipt → ℕ → Payment
new_payment now sub r id = record {
  id = id;
  shop_id = sub.shop_id;
  subscription_id = some sub.id;
  provider = r.provider;
  status = PaymentStatus.succeeded;
  amount = r.amount;
  currency = r.currency;
  is_recurring = r.is_recurring;
  external_id = some r.transaction_id;
  created_at = now;
}

abbrev pub add_payment : Payment → Action Billing (Unit {0})
add_payment p =
    modify (λ b. record b { payments = p ∷ b.payments; next_payment = suc b.next_payment })

-- The fields that a payment sets, before the status changes.
unfoldable pub extended : ℕ → Subscription → Receipt → Subscription
extended now sub r = record sub {
  current_period_end = some (extension_base now sub.current_period_end + period_delta r.period);
  plan_id = some r.plan.id;
  provider = some r.provider;
  period = r.period;
  auto_renew = r.auto_renew;
  is_comp = false;
  renewal_reminder_sent = false;
  external_sub_id = if has_text r.recurring_token then r.recurring_token else sub.external_sub_id;
}

abbrev pub enter_payment : ℕ → Subscription → Receipt → Action Billing Payment
enter_payment now sub r = do
  id ← gets Billing.next_payment
  let payment = new_payment now sub r id
  add_payment payment
  pure payment

abbrev pub pay : ℕ → Subscription → Receipt → Option Payment → Action Billing Payment
pay now sub r (some existing_payment) = pure existing_payment
pay now sub r none = do
  let paid = extended now sub r
  set_sub paid
  transition paid SubStatus.active
  enter_payment now sub r

unfoldable pub record_payment : ℕ → Subscription → Receipt → Action Billing Payment
unfolding transition extended
record_payment now sub r = do
  existing ← gets (λ b. select_one (is_payment sub.shop_id r.transaction_id) b.payments)
  pay now sub r existing

unfoldable pub mark_past_due : ℕ → Subscription → Action Billing Subscription
unfolding transition
mark_past_due now sub = do
  late ← transition sub SubStatus.past_due
  let graced = record late { current_period_end = some (now + days past_due_grace_days) }
  set_sub graced
  pure graced

unfoldable pub cancel : ℕ → Subscription → Action Billing Subscription
unfolding transition
cancel now sub = do
  ended ← transition sub SubStatus.canceled
  let stopped = record ended { auto_renew = false; canceled_at = some now }
  set_sub stopped
  pure stopped

unfoldable pub expire : Subscription → Action Billing Subscription
unfolding transition
expire sub = do
  ended ← transition sub SubStatus.expired
  let stopped = record ended { auto_renew = false }
  set_sub stopped
  pure stopped
