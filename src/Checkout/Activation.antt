-- ===== src/Checkout/Activation.antt =====
-- From the reference of a checkout to the renewed subscription: app/billing/refs.py and
-- `wayforpay_webhook` of app/api/payment_webhooks.py.
use skladbase.Prelude.{
  ℕ, ◌≡◌, ◌==◌, refl, sym, ap, subst, ◌∙◌, true, false, String, Option, none, some, List,
}
use skladbase.Prelude.Tables.{select_one, find}
use skladbase.Prelude.Texts.{codes, same_codes}
use skladbase.Prelude.Numerals.{Lacks}
use skladbase.Models.{server_error, Billing, Payment, Subscription, Plan, SubPeriod, SubProvider}
use skladbase.Session.{Action, ok, pure, or_raise, ◌>>=◌, undone, >>=-ok}
use skladbase.Subscriptions.{Receipt, record_payment, is_payment, period_delta}
use skladbase.Subscriptions.Payments.{record_payment-renews, Renewed}
use skladbase.Checkout.Refs.{parse_ref, build_ref, period_value, separator, is_empty}
use skladbase.Checkout.RoundTrip.{parse_ref-build_ref}
use skladbase.Checkout.Webhooks.{
  Libraries, Secrets, Verdict, Resolved, Reply, resolve_from_ref, resolved_in, verify_callback,
  wayforpay_webhook, card_verified, card_genuine, card_resolved, parse_callback,
  build_accept_response, of_amount, read_amount, paid_period, card_paid, get_or,
}

paid_period-value : (period : SubPeriod) → paid_period (period_value period) ≡ period
unfolding same_codes
paid_period-value SubPeriod.month = refl
paid_period-value SubPeriod.year = refl

-- What a message on a built reference is resolved to.
resolve_from_ref-build_ref :
    (shop_id : ℕ) (plan : Plan) (period : SubPeriod) (nonce : List ℕ) (ref : String)
    (sub : Subscription) (b : Billing)
    → is_empty (codes plan.code) ≡ false
    → Lacks separator (codes plan.code)
    → Lacks separator nonce
    → build_ref shop_id (codes plan.code) (period_value period) nonce ≡ some (codes ref)
    → select_one (λ s. s.shop_id == shop_id) b.subscriptions ≡ some sub
    → select_one (λ p. same_codes (codes p.code) (codes plan.code)) b.plans ≡ some plan
    → resolve_from_ref ref b
      ≡ some (record { subscription = sub; plan = plan; period = period_value period })
unfolding resolve_from_ref
resolve_from_ref-build_ref shop_id plan period nonce ref sub b filled lacks lacks' built s p =
    let (text, made, read) =
      parse_ref-build_ref shop_id (codes plan.code) period nonce filled lacks lacks' in
    let same = ap (get_or_empty) (sym made ∙ built) in
    ap (resolved_in b) (sym (ap parse_ref same) ∙ read) ∙ rw (s, p) refl
  where
    get_or_empty : Option (List ℕ) → List ℕ
    get_or_empty none = codes ""
    get_or_empty (some t) = t

-- The reference of a checkout comes back in a message with a right signature and a readable amount,
-- whatever its `transactionStatus` says: where the shop has a stored subscription, the plan with that
-- code is stored, and the reference was not paid before, the message is accepted and the subscription
-- is active until the bought period after the later of now and its old end.
pub wayforpay_webhook-renews :
    (L : Libraries) (S : Secrets) (now : ℕ) (body : L.Json) (shop_id : ℕ) (plan : Plan)
    (period : SubPeriod) (nonce : List ℕ) (ref : String) (sub : Subscription) (b : Billing)
    (text : String) (amount : ℕ)
    → is_empty (codes plan.code) ≡ false
    → Lacks separator (codes plan.code)
    → Lacks separator nonce
    → build_ref shop_id (codes plan.code) (period_value period) nonce ≡ some (codes ref)
    → select_one (λ s. s.shop_id == shop_id) b.subscriptions ≡ some sub
    → find Subscription.id sub.id b.subscriptions ≡ some sub
    → select_one (λ p. same_codes (codes p.code) (codes plan.code)) b.plans ≡ some plan
    → select_one (is_payment sub.shop_id ref) b.payments ≡ none
    → verify_callback L S body ≡ Verdict.genuine
    → L.item body "orderReference" ≡ some ref
    → L.item body "amount" ≡ some text
    → L.decimal_of text ≡ some amount
    → (t : Billing) × (wayforpay_webhook L S now body b
        ≡ (ok (build_accept_response L S now ref), t))
      × Renewed now sub (period_delta period) t
unfolding wayforpay_webhook parse_callback
wayforpay_webhook-renews L S now body shop_id plan period nonce ref sub b text amount filled lacks
      lacks' built one stored sold new genuine ordered priced read =
    let value = period_value period in
    let resolved : Resolved = record { subscription = sub; plan = plan; period = value } in
    let found : resolve_from_ref ref b ≡ some resolved =
      resolve_from_ref-build_ref shop_id plan period nonce ref sub b filled lacks lacks' built one
        sold in
    let parsed : read_amount L S (L.item body "amount") ≡ some amount =
      ap (read_amount L S) priced ∙ read in
    let result = of_amount L S body ref value in
    let receipt : Receipt = record {
      provider = SubProvider.card;
      plan = plan;
      period = paid_period value;
      amount = amount;
      currency = get_or "UAH" (L.item body "currency");
      transaction_id = ref;
      recurring_token = L.get body "recToken";
      is_recurring = false;
      auto_renew = true;
    } in
    let (p, t, ran, _, renewed) = record_payment-renews now sub receipt b stored new in
    let accept : Payment → Action Billing Reply = λ _. pure (build_accept_response L S now ref) in
    let pay = card_paid L S now body ref resolved in
    (
      t,
      ap (λ v. undone b (card_verified L S now body v b)) genuine
          ∙ ap (λ o. undone b ((or_raise o server_error >>= card_genuine L S now body) b)) ordered
          ∙ ap (λ r. undone b (card_resolved L S now body ref r b)) found
          ∙ ap (λ r. undone b ((or_raise r server_error >>= pay) b)) (ap result parsed)
          ∙ ap (undone b) (>>=-ok (record_payment now sub receipt) accept b ran),
      subst (λ k. Renewed now sub (period_delta k) t) (paid_period-value period) renewed,
    )
