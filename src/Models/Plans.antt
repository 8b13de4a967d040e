-- ===== src/Models/Plans.antt =====
-- app/models.py: the enums and the tables of plans, subscriptions, payments and promo codes. A time
-- is a number of seconds, money a number of hundredths. The value of a promo code is a number of
-- days or a percentage, which the bot's admin command takes as a positive number.
use skladbase.Prelude.{
  ℕ, ◌*◌, String, Bool, true, false, Option, none, some, List, ltb, leb, not, ◌||◌, ◌&&◌,
}

pub data SubStatus : Type 0 where
  trial active past_due canceled expired : SubStatus

pub data SubProvider : Type 0 where
  stars card crypto : SubProvider

pub data SubPeriod : Type 0 where
  month year : SubPeriod

pub data PaymentStatus : Type 0 where
  pending succeeded failed refunded : PaymentStatus

pub data PromoType : Type 0 where
  free_period percent plan_grant : PromoType

-- `a == b` on statuses
abbrev pub same_status : SubStatus → SubStatus → Bool
same_status SubStatus.trial SubStatus.trial = true
same_status SubStatus.active SubStatus.active = true
same_status SubStatus.past_due SubStatus.past_due = true
same_status SubStatus.canceled SubStatus.canceled = true
same_status SubStatus.expired SubStatus.expired = true
same_status _ _ = false

abbrev pub is_succeeded : PaymentStatus → Bool
is_succeeded PaymentStatus.succeeded = true
is_succeeded _ = false

abbrev pub is_card : Option SubProvider → Bool
is_card (some SubProvider.card) = true
is_card _ = false

-- the JSON of `Plan.limits`, with `None` for no bound
pub record PlanLimits : Type 0 where
  pub max_products : Option ℕ
  pub photos : Bool
  pub integrations : Bool

pub record Plan : Type 0 where
  pub id : ℕ
  pub code : String
  pub name : String
  pub period : SubPeriod
  pub price_uah : ℕ
  pub price_stars : ℕ
  pub limits : PlanLimits
  pub is_on_sale : Bool

pub record Subscription : Type 0 where
  pub id : ℕ
  pub shop_id : ℕ
  pub plan_id : Option ℕ
  pub status : SubStatus
  pub provider : Option SubProvider
  pub period : SubPeriod
  pub trial_ends_at : Option ℕ
  pub current_period_end : Option ℕ
  pub auto_renew : Bool
  pub is_comp : Bool
  pub external_sub_id : Option String
  pub renewal_reminder_sent : Bool
  pub created_at : ℕ
  pub canceled_at : Option ℕ

abbrev pub later_than : Option ℕ → ℕ → Bool
later_than none now = false
later_than (some t) now = ltb now t

-- `Subscription.is_writable`, branch by branch
unfoldable pub is_writable : ℕ → Subscription → Bool
is_writable now s = elim s.status [
  | active ↦ true
  | canceled ↦ true
  | past_due ↦ true
  | expired ↦ true
  | trial ↦ later_than s.trial_ends_at now || same_status s.status SubStatus.trial
]

pub record Payment : Type 0 where
  pub id : ℕ
  pub shop_id : ℕ
  pub subscription_id : Option ℕ
  pub provider : SubProvider
  pub status : PaymentStatus
  pub amount : ℕ
  pub currency : String
  pub is_recurring : Bool
  pub external_id : Option String
  pub created_at : ℕ

pub record PromoCode : Type 0 where
  pub id : ℕ
  pub code : String
  pub type_of : PromoType
  pub value : ℕ
  pub plan_id : Option ℕ
  pub max_uses : ℕ
  pub used_count : ℕ
  pub expires_at : Option ℕ
  pub enabled : Bool

abbrev pub is_past : Option ℕ → ℕ → Bool
is_past none now = false
is_past (some t) now = ltb t now

-- `PromoCode.is_redeemable`
unfoldable pub is_redeemable : ℕ → PromoCode → Bool
is_redeemable now p =
    not (not p.enabled || leb p.max_uses p.used_count) && not (is_past p.expires_at now)

pub record PromoRedemption : Type 0 where
  pub promo_code_id : ℕ
  pub shop_id : ℕ
  pub redeemed_at : ℕ

-- The tables of billing, and the sequences that number subscriptions and payments.
pub record Billing : Type 0 where
  pub plans : List Plan
  pub subscriptions : List Subscription
  pub payments : List Payment
  pub promos : List PromoCode
  pub redemptions : List PromoRedemption
  pub next_subscription : ℕ
  pub next_payment : ℕ

abbrev pub days : ℕ → ℕ
days n = n * 86400

abbrev pub hours : ℕ → ℕ
hours n = n * 3600
