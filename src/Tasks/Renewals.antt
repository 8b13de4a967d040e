-- ===== src/Tasks/Renewals.antt =====
-- app/tasks.py: the jobs on subscriptions.
use skladbase.Prelude.{
  ℕ, suc, ◌+◌, String, Bool, true, false, ◌&&◌, ◌||◌, not, Option, none, some, List, [], ◌∷◌, ltb,
  keep,
}
use mathlib.Core.Option
use skladbase.Prelude.Tables.{find}
use skladbase.Models.{
  server_error, Shop, SubStatus, SubProvider, Plan, Subscription, Billing, same_status, is_card,
  is_past, days, hours,
}
use skladbase.Session.{Action, pure, gets, or_raise, ◌>>=◌, ◌>>◌, Tx, commit_tx}
use skladbase.Subscriptions.{Receipt, expire, set_sub, record_payment, mark_past_due}
use skladbase.Subscriptions.Promo.{effective_price_uah}

-- the rows that `expire_subscriptions` selects
unfoldable pub is_lapsed : ℕ → Subscription → Bool
is_lapsed now s =
    is_past s.current_period_end now
    && (same_status s.status SubStatus.trial
        || same_status s.status SubStatus.canceled
        || same_status s.status SubStatus.past_due
        || same_status s.status SubStatus.active && not s.auto_renew)

-- `(await session.get(Shop, …)).owner_tg_id`
abbrev pub owner_of : List Shop → ℕ → Option ℕ
owner_of shops shop_id = Option.map Shop.owner_tg_id (find Shop.id shop_id shops)

-- A missing shop is a None without attributes.
abbrev pub get_owner : {S : Type 0} → List Shop → ℕ → Action S ℕ
get_owner shops shop_id = or_raise (owner_of shops shop_id) server_error

-- Steps on the tables as the transaction has them.
abbrev pub within : {S A : Type 0} → Action S A → Action (Tx S) A
within m s = let (r, t) = m s.work in (r, record s { work = t })

-- The end of a job: `await session.commit()`, which an exception does not come to.
abbrev pub committing : {S A : Type 0} → Action S A → Action (Tx S) A
committing m = within m >>= λ a. commit_tx >> pure a

-- The loop; the owners that are told come back, one for each subscription.
unfoldable pub expire_each : List Shop → List Subscription → Action Billing (List ℕ)
unfolding expire
expire_each shops [] = pure []
expire_each shops (s ∷ ss) = do
  expire s
  owner ← get_owner shops s.shop_id
  told ← expire_each shops ss
  pure (owner ∷ told)

abbrev pub expire_candidates : List Shop → ℕ → Action Billing (List ℕ)
expire_candidates shops now = do
  candidates ← gets (λ b. keep (is_lapsed now) b.subscriptions)
  expire_each shops candidates

unfoldable pub expire_subscriptions : List Shop → ℕ → Action (Tx Billing) (List ℕ)
unfolding expire_each is_lapsed
expire_subscriptions shops now = committing (expire_candidates shops now)

abbrev ends_within : ℕ → ℕ → Option ℕ → Bool
ends_within now span none = false
ends_within now span (some end) = ltb end (now + span) && ltb now end

-- the rows that `send_renewal_reminders` selects
unfoldable pub is_reminded : ℕ → Subscription → Bool
is_reminded now s =
    (same_status s.status SubStatus.active || same_status s.status SubStatus.trial)
    && not s.auto_renew
    && not s.renewal_reminder_sent
    && ends_within now (days 3) s.current_period_end

abbrev pub remind : Subscription → Subscription
remind s = record s { renewal_reminder_sent = true }

unfoldable pub remind_each : List Shop → List Subscription → Action Billing (List ℕ)
remind_each shops [] = pure []
remind_each shops (s ∷ ss) = do
  owner ← get_owner shops s.shop_id
  set_sub (remind s)
  told ← remind_each shops ss
  pure (owner ∷ told)

abbrev pub remind_ending : List Shop → ℕ → Action Billing (List ℕ)
remind_ending shops now = do
  subs ← gets (λ b. keep (is_reminded now) b.subscriptions)
  remind_each shops subs

unfoldable pub send_renewal_reminders : List Shop → ℕ → Action (Tx Billing) (List ℕ)
unfolding remind_each is_reminded
send_renewal_reminders shops now = committing (remind_ending shops now)

-- the rows that `charge_due_card_subscriptions` selects
unfoldable pub is_chargeable : ℕ → Subscription → Bool
is_chargeable now s =
    is_card s.provider
    && s.auto_renew
    && (same_status s.status SubStatus.active || same_status s.status SubStatus.past_due)
    && is_past s.current_period_end (now + hours 12)

abbrev pub plan_of : Subscription → Billing → Option Plan
plan_of s b = elim s.plan_id [ none ↦ none | some k ↦ find Plan.id k b.plans ]

-- What a charge is recorded as: the reference is the transaction, the token stays.
abbrev pub charged : Subscription → Plan → String → Receipt
charged s plan reference = record {
  provider = SubProvider.card;
  plan = plan;
  period = s.period;
  amount = effective_price_uah plan s.period;
  currency = "UAH";
  transaction_id = reference;
  recurring_token = s.external_sub_id;
  is_recurring = true;
  auto_renew = true;
}

-- What the job reports: how many were charged, and which owners are told of a refusal.
pub record ChargeReport : Type 0 where
  pub count : ℕ
  pub told : List ℕ

abbrev pub count_one : ChargeReport → ChargeReport
count_one c = record c { count = suc c.count }

abbrev pub tell : ℕ → ChargeReport → ChargeReport
tell owner c = record c { told = owner ∷ c.told }

-- The card provider: from the token, the reference and the amount, whether it answers "Approved".
-- There is no answer where `charge_recurring` raises: the request fails, or the body is no JSON
-- object; nothing in the job catches that.
module _ (shops : List Shop) (charge_recurring : Option String → String → ℕ → Option Bool)
    (order_ref : ℕ → ℕ → String) where
  abbrev pub charge_answered :
      ℕ → Subscription → Plan → Bool → Action Billing (ChargeReport → ChargeReport)
  charge_answered now s plan true =
      record_payment now s (charged s plan (order_ref s.shop_id now)) >> pure count_one
  charge_answered now s plan false =
      mark_past_due now s >> (get_owner shops s.shop_id >>= λ owner. pure (tell owner))

  abbrev pub answer_of : ℕ → Subscription → Plan → Option Bool
  answer_of now s plan =
      charge_recurring s.external_sub_id (order_ref s.shop_id now)
        (effective_price_uah plan s.period)

  abbrev pub charge_one :
      ℕ → Subscription → Option Plan → Action Billing (ChargeReport → ChargeReport)
  charge_one now s none = pure (λ c. c)
  charge_one now s (some plan) =
      or_raise (answer_of now s plan) server_error >>= charge_answered now s plan

  unfoldable pub charge_each : ℕ → List Subscription → Action Billing ChargeReport
  unfolding record_payment mark_past_due
  charge_each now [] = pure (record { count = 0; told = [] })
  charge_each now (s ∷ ss) = do
    plan ← gets (plan_of s)
    add ← charge_one now s plan
    rest ← charge_each now ss
    pure (add rest)

  abbrev pub charge_due : ℕ → Action Billing ChargeReport
  charge_due now = do
    subs ← gets (λ b. keep (is_chargeable now) b.subscriptions)
    charge_each now subs

  unfoldable pub charge_due_card_subscriptions : ℕ → Action (Tx Billing) ChargeReport
  unfolding charge_each is_chargeable
  charge_due_card_subscriptions now = committing (charge_due now)
