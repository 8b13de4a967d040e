-- ===== src/Checkout/Messages.antt =====
-- app/api/payment_webhooks.py: messages, the endpoints they come to, and when they may pay.
use skladbase.Prelude.{
  ℕ, ◌≡◌, refl, ap, ◌∙◌, ◌⊎◌, inr, String, true, Option, none, some, List, arith,
}
use skladbase.Prelude.Int.{ℤ, pos, negsuc}
use skladbase.Prelude.Tables.{select_one, select_one-test}
use skladbase.Prelude.Texts.{codes}
use skladbase.Models.{Billing, Payment, Subscription, Plan}
use skladbase.Session.{Action, Result, ok, pure, ◌>>◌, transaction, undone, >>=-ok}
use skladbase.Subscriptions.{Receipt, record_payment}
use skladbase.Subscriptions.Payments.{records}
use skladbase.Checkout.Refs.{ParsedRef, parse_ref}
use skladbase.Checkout.Webhooks.{
  Libraries, Secrets, Verdict, Resolved, Reply, get_or, resolve_from_ref, resolved_in,
  with_subscription, with_plan, matches, verify_callback, verify_ipn, wayforpay_webhook,
  nowpayments_webhook, is_finished,
}

-- The reference of a message, and its subscription: of the shop that the reference names.
abbrev pub Names : String → Resolved → Type 0
Names ref r =
    (parsed : ParsedRef) × (parse_ref (codes ref) ≡ some parsed)
    × (parsed.shop_id ≡ pos r.subscription.shop_id)

matches-≡ : (z : ℤ) (k : ℕ) → matches z k ≡ true → z ≡ pos k
matches-≡ (pos n) k e = ground arith
matches-≡ (negsuc n) k e = absurd (ground arith)

abbrev shop_of : Option Resolved → ℕ
shop_of none = 0
shop_of (some r) = r.subscription.shop_id

plan_lem :
    (parsed : ParsedRef) (ref : String) (sub : Subscription) (plan : Option Plan) {r : Resolved}
    → parse_ref (codes ref) ≡ some parsed
    → parsed.shop_id ≡ pos sub.shop_id
    → with_plan parsed.period sub plan ≡ some r
    → Names ref r
plan_lem parsed ref sub none h k e = absurd (ground arith)
plan_lem parsed ref sub (some plan) h k e = (parsed, h, k ∙ ap pos (ap shop_of e))

pub resolve_from_ref-Names :
    (ref : String) (b : Billing) {r : Resolved} → resolve_from_ref ref b ≡ some r → Names ref r
unfolding resolve_from_ref
resolve_from_ref-Names ref b {r} = from (parse_ref (codes ref)) refl
  where
    from :
        (o : Option ParsedRef) → parse_ref (codes ref) ≡ o → resolved_in b o ≡ some r → Names ref r
    from none h e = absurd (ground arith)
    from (some parsed) h e =
        found (select_one (λ s. matches parsed.shop_id s.shop_id) b.subscriptions) refl e
      where
        found :
            (o : Option Subscription)
            → select_one (λ s. matches parsed.shop_id s.shop_id) b.subscriptions ≡ o
            → with_subscription b parsed o ≡ some r
            → Names ref r
        found none k e = absurd (ground arith)
        found (some sub) k e =
            plan_lem parsed ref sub _ h
              (matches-≡ parsed.shop_id sub.shop_id
                (select_one-test (λ s. matches parsed.shop_id s.shop_id) b.subscriptions k))
              e

-- A message as it comes in, and the endpoint that it comes to.
pub data Message (L : Libraries) : Type 0 where
  card : L.Json → Message L
  crypto : List ℕ → List ℕ → Message L

module _ (L : Libraries) (S : Secrets) where
  abbrev pub deliver : ℕ → Message L → Action Billing Reply
  deliver now (card body) = wayforpay_webhook L S now body
  deliver now (crypto raw_body signature) = nowpayments_webhook L S now raw_body signature

  -- the reference and the transaction of a message
  abbrev pub loaded_item : String → Option L.Json → String
  loaded_item key none = ""
  loaded_item key (some body) = get_or "" (L.item body key)

  abbrev pub ref_of : Message L → String
  ref_of (card body) = get_or "" (L.item body "orderReference")
  ref_of (crypto raw_body signature) = loaded_item "order_id" (L.loads raw_body)

  abbrev pub transaction_of : Message L → String
  transaction_of (card body) = get_or "" (L.item body "orderReference")
  transaction_of (crypto raw_body signature) = loaded_item "payment_id" (L.loads raw_body)

  -- What the provider must have said: its signature is right, and a payment in crypto is through.
  abbrev pub Genuine : Message L → Type 0
  Genuine (card body) = verify_callback L S body ≡ Verdict.genuine
  Genuine (crypto raw_body signature) =
      (verify_ipn L S raw_body signature ≡ Verdict.genuine)
      × (body : L.Json) × (L.loads raw_body ≡ some body)
      × (is_finished L S (get_or "" (L.get body "payment_status")) ≡ true)

  -- One payment is recorded, for the subscription of the shop that the reference names.
  abbrev pub Credits : ℕ → Message L → Billing → Result Reply × Billing → Type 0
  Credits now m b out =
      (r : Resolved) × (receipt : Receipt) × (p : Payment) × (t : Billing) × (reply : Reply)
      × (resolve_from_ref (ref_of m) b ≡ some r)
      × Names (ref_of m) r
      × (receipt.transaction_id ≡ transaction_of m)
      × (record_payment now r.subscription receipt b ≡ (ok p, t))
      × (out ≡ (ok reply, t))

  -- Of the time only the period's end depends, not what is done.
  abbrev pub Guarded : Message L → Billing → (ℕ → Result Reply × Billing) → Type 0
  Guarded m b out =
      ((now : ℕ) → (out now).1 ≡ b) ⊎ (Genuine m × ((now : ℕ) → Credits now m b (out now)))

  pub credited :
      (m : Message L) (b : Billing) (r : Resolved) (receipt : Receipt) (reply : ℕ → Reply)
      → Genuine m
      → resolve_from_ref (ref_of m) b ≡ some r
      → receipt.transaction_id ≡ transaction_of m
      → Guarded m b
          (λ now. transaction (record_payment now r.subscription receipt >> pure (reply now)) b)
  credited m b r receipt reply g e txn = inr (
    g,
    λ now.
        let (p, t, ran, _) = records now r.subscription receipt b in
        (
          r,
          receipt,
          p,
          t,
          reply now,
          e,
          resolve_from_ref-Names (ref_of m) b e,
          txn,
          ran,
          ap (undone b)
              (>>=-ok (record_payment now r.subscription receipt) (λ _. pure (reply now)) b ran),
        ),
  )
