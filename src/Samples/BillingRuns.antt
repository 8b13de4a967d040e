-- ===== src/Samples/BillingRuns.antt =====
-- The theorems on subscriptions, on a shop whose subscription has run out.
use skladbase.Prelude.{
  ◌≡◌, ◌≢◌, ◌≤◌, ◌+◌, ◌*◌, ◌∷◌, [], refl, String, true, false, none, some, arith,
}
use skladbase.Prelude.Tables.{find, select_one}
use skladbase.Models.{
  SubStatus, SubProvider, SubPeriod, PaymentStatus, PromoType, Plan, Subscription, Payment,
  PromoCode, Billing, subscription_error, conflict, is_redeemable,
}
use skladbase.Session.{ok, err}
use skladbase.Subscriptions.{Receipt, record_payment, period_delta, transition, extended, allowed}
use skladbase.Subscriptions.Promo.{
  redeem_promo, effective_price_uah, effective_price_uah-year, granted, count_use,
}
use skladbase.Subscriptions.Payments.{Renewed, record_payment-renews, record_payment-again}
use skladbase.Subscriptions.Redemptions.{PromoInv, uses, redeem_promo-Inv, redeem_promo-again}
use skladbase.Subscriptions.Steps.{starts_trial, expires, pays, cancels}
use skladbase.Subscriptions.Machine.{Stands, operate, operate-Stands, run, run-trial}

abbrev pub basic : Plan
basic = record {
  id = 2;
  code = "basic";
  name = "Basic";
  period = SubPeriod.month;
  price_uah = 15000;
  price_stars = 100;
  limits = record { max_products = some 100; photos = true; integrations = false };
  is_on_sale = true;
}

abbrev pub lapsed : Subscription
lapsed = record {
  id = 1;
  shop_id = 7;
  plan_id = some 2;
  status = SubStatus.expired;
  provider = some SubProvider.card;
  period = SubPeriod.month;
  trial_ends_at = none;
  current_period_end = some 500;
  auto_renew = false;
  is_comp = false;
  external_sub_id = some "tok";
  renewal_reminder_sent = false;
  created_at = 1;
  canceled_at = none;
}

abbrev gift : PromoCode
gift = record {
  id = 3;
  code = "GIFT";
  type_of = PromoType.free_period;
  value = 60;
  plan_id = none;
  max_uses = 1;
  used_count = 0;
  expires_at = none;
  enabled = true;
}

abbrev pub books : Billing
books = record {
  plans = basic ∷ [];
  subscriptions = lapsed ∷ [];
  payments = [];
  promos = gift ∷ [];
  redemptions = [];
  next_subscription = 2;
  next_payment = 1;
}

abbrev receipt : Receipt
receipt = record {
  provider = SubProvider.card;
  plan = basic;
  period = SubPeriod.month;
  amount = 15000;
  currency = "UAH";
  transaction_id = "t1";
  recurring_token = some "tok";
  is_recurring = true;
  auto_renew = true;
}

record_payment-renews_example :
    (p : Payment) × (t : Billing) × (record_payment 1000 lapsed receipt books ≡ (ok p, t))
    × (t.payments ≡ p ∷ [])
    × Renewed 1000 lapsed (period_delta SubPeriod.month) t
unfolding find select_one
record_payment-renews_example = record_payment-renews 1000 lapsed receipt books refl refl

abbrev paid : Billing
paid = (record_payment 1000 lapsed receipt books).1

abbrev payment : Payment
payment = record {
  id = 1;
  shop_id = 7;
  subscription_id = some 1;
  provider = SubProvider.card;
  status = PaymentStatus.succeeded;
  amount = 15000;
  currency = "UAH";
  is_recurring = true;
  external_id = some "t1";
  created_at = 1000;
}

record_payment-again_example : record_payment 2000 lapsed receipt paid ≡ (ok payment, paid)
unfolding record_payment transition allowed extended select_one
record_payment-again_example =
    record_payment-again 1000 2000 lapsed lapsed receipt receipt books paid payment refl refl refl

abbrev same_code : String → String
same_code s = s

books-Inv : PromoInv books
unfolding uses
books-Inv = record {
  bound = 4;
  numbered = (omega arith, tt);
  metered = ((refl, omega arith), tt);
  once = tt;
}

redeem_promo-Inv_example : PromoInv (redeem_promo same_code 1000 7 lapsed "GIFT" books).1
redeem_promo-Inv_example = redeem_promo-Inv same_code 1000 7 lapsed "GIFT" books books-Inv

abbrev given : Billing
given = (redeem_promo same_code 1000 7 lapsed "GIFT" books).1

abbrev renewed : Subscription
renewed = record (granted 1000 60 (some 2) lapsed) { status = SubStatus.active }

redeem_promo-again_example :
    redeem_promo same_code 2000 7 lapsed "GIFT" given ≡ (err (subscription_error conflict), given)
unfolding redeem_promo transition allowed granted count_use select_one is_redeemable
redeem_promo-again_example =
    redeem_promo-again same_code 1000 2000 7 lapsed lapsed renewed "GIFT" books given books-Inv refl

operate-Stands_example : Stands cancels 1 SubStatus.expired (operate 1000 lapsed cancels books)
unfolding find
operate-Stands_example = operate-Stands 1000 lapsed cancels books refl

run-trial_example :
    (t : Subscription) × (find Subscription.id 1
        (run 1
          ((1000, pays receipt) ∷ (2000, expires) ∷ (3000, starts_trial none) ∷ [])
          books).subscriptions
      ≡ some t)
    × (t.status ≢ SubStatus.trial)
unfolding find
run-trial_example =
    run-trial 1 ((1000, pays receipt) ∷ (2000, expires) ∷ (3000, starts_trial none) ∷ []) books
      lapsed refl refl (λ e. cc)

effective_price_uah-year_example :
    (effective_price_uah basic SubPeriod.year * 100 ≤ 15000 * 1080 + 50)
    × (15000 * 1080 ≤ effective_price_uah basic SubPeriod.year * 100 + 50)
effective_price_uah-year_example = effective_price_uah-year basic
