-- ===== src/Subscriptions/Promo.antt =====
-- app/services/subscriptions.py: `redeem_promo` and `effective_price_uah`.
use skladbase.Prelude.{
  ℕ, suc, ◌+◌, ◌*◌, ◌/◌, ◌%◌, ◌≤◌, arith, ltb, if◌then◌else◌, ◌||◌, String, Bool, true, false, ◌&&◌,
  not, Option, none, some, ◌∷◌, ◌==◌, is_some, str_eq,
}
use skladbase.Prelude.Tables.{select_one, find, save}
use skladbase.Models.{
  subscription_error, not_found, conflict, gone, SubStatus, SubPeriod, PromoType, Plan,
  Subscription, PromoCode, PromoRedemption, Billing, is_redeemable, days,
}
use skladbase.Session.{Action, pure, raise, or_raise, gets, modify, raise_if, ◌>>=◌, ◌>>◌}
use skladbase.Subscriptions.{set_sub, transition, extension_base}

abbrev pub is_redemption : ℕ → ℕ → PromoRedemption → Bool
is_redemption promo shop_id r = r.promo_code_id == promo && r.shop_id == shop_id

abbrev pub has_code : String → PromoCode → Bool
has_code code p = str_eq p.code code

-- What the days of a code make of a subscription.
unfoldable pub granted : ℕ → ℕ → Option ℕ → Subscription → Subscription
granted now value plan_id sub = record sub {
  current_period_end = some (extension_base now sub.current_period_end + days value);
  plan_id = plan_id;
  is_comp = true;
  auto_renew = false;
}

abbrev pub grant : ℕ → ℕ → Option ℕ → Subscription → Action Billing Subscription
grant now value plan_id sub =
    set_sub (granted now value plan_id sub)
    >> transition (granted now value plan_id sub) SubStatus.active

abbrev pub promo_plan : PromoCode → Billing → Option Plan
promo_plan promo b = elim promo.plan_id [ none ↦ none | some k ↦ find Plan.id k b.plans ]

abbrev pub grant_plan : ℕ → ℕ → Subscription → Option Plan → Action Billing Subscription
grant_plan now value sub none = raise (subscription_error not_found)
grant_plan now value sub (some plan) = grant now value (some plan.id) sub

-- The three branches on the type of the code.
abbrev pub apply_code : ℕ → Subscription → PromoCode → PromoType → Action Billing Subscription
apply_code now sub promo PromoType.free_period = grant now promo.value sub.plan_id sub
apply_code now sub promo PromoType.plan_grant = do
  found ← gets (promo_plan promo)
  grant_plan now promo.value sub found
apply_code now sub promo PromoType.percent = pure sub

-- `promo.used_count += 1` and the row of the redemption
unfoldable pub count_use : ℕ → ℕ → PromoCode → Billing → Billing
count_use now shop_id promo b = record b {
  promos = save PromoCode.id (record promo { used_count = suc promo.used_count }) b.promos;
  redemptions =
      record { promo_code_id = promo.id; shop_id = shop_id; redeemed_at = now } ∷ b.redemptions;
}

abbrev pub use_code : ℕ → ℕ → PromoCode → Subscription → Action Billing Subscription
use_code now shop_id promo renewed = modify (count_use now shop_id promo) >> pure renewed

-- `code.strip().upper()` is `code_of`.
unfoldable pub redeem_promo :
    (String → String) → ℕ → ℕ → Subscription → String → Action Billing Subscription
unfolding transition granted count_use
redeem_promo code_of now shop_id sub code = do
  found ← gets (λ b. select_one (has_code (code_of code)) b.promos)
  promo ← or_raise found (subscription_error not_found)
  already ← gets (λ b. select_one (is_redemption promo.id shop_id) b.redemptions)
  raise_if (is_some already) (subscription_error conflict)
  raise_if (not (is_redeemable now promo)) (subscription_error gone)
  renewed ← apply_code now sub promo promo.type_of
  use_code now shop_id promo renewed

-- `quantize(Decimal("0.01"))` of a number of thousandths: to the nearest, a half to the even one
unfoldable pub quantize : ℕ → ℕ
quantize n = if ltb 5 (n % 10) || (n % 10 == 5 && n / 10 % 2 == 1) then suc (n / 10) else n / 10

-- Prices are in hundredths: 12 months, times 0.90.
unfoldable pub effective_price_uah : Plan → SubPeriod → ℕ
unfolding quantize
effective_price_uah plan SubPeriod.year = quantize (plan.price_uah * 12 * 90 / 10)
effective_price_uah plan SubPeriod.month = plan.price_uah

-- The price of a year is within half a hundredth of nine tenths of twelve months.
pub effective_price_uah-year :
    (plan : Plan)
    → (effective_price_uah plan SubPeriod.year * 100 ≤ plan.price_uah * 1080 + 50)
      × (plan.price_uah * 1080 ≤ effective_price_uah plan SubPeriod.year * 100 + 50)
unfolding effective_price_uah quantize
effective_price_uah-year plan = ground arith
