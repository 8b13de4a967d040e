-- ===== src/Checkout/Delivery.antt =====
-- app/api/payment_webhooks.py: which messages change anything, and what a repeated one does.
use skladbase.Prelude.{ℕ, ◌≡◌, refl, sym, ap, ◌∙◌, inl, inr, Option, none, some}
use skladbase.Prelude.Int.{ℤ, pos, pos_part}
use skladbase.Models.{Billing, Payment}
use skladbase.Session.{Result, ok}
use skladbase.Subscriptions.{Receipt, record_payment}
use skladbase.Subscriptions.Payments.{record_payment-again}
use skladbase.Checkout.Refs.{ParsedRef}
use skladbase.Checkout.Webhooks.{
  Libraries, Secrets, Resolved, Reply, verify_callback, verify_ipn, wayforpay_webhook,
  nowpayments_webhook,
}
use skladbase.Checkout.Messages.{
  Message, card, crypto, deliver, Guarded, Names, ref_of, transaction_of,
}
use skladbase.Checkout.Card.{card_answered}
use skladbase.Checkout.Crypto.{crypto_answered}

module _ (L : Libraries) (S : Secrets) where
  -- A message changes nothing, unless its signature is right, a payment in crypto is finished or
  -- confirmed, and its reference is of a shop with a subscription and of a plan: then exactly one
  -- `record_payment` for that shop's subscription and the message's transaction is committed.
  pub deliver-Guarded : (m : Message L) (b : Billing) → Guarded L S m b (λ now. deliver L S now m b)
  unfolding wayforpay_webhook nowpayments_webhook
  deliver-Guarded (card body) b = card_answered L S body b (verify_callback L S body) refl
  deliver-Guarded (crypto raw_body signature) b =
      crypto_answered L S raw_body signature b (verify_ipn L S raw_body signature) refl

  abbrev shop_in : Option ParsedRef → ℤ
  shop_in none = pos 0
  shop_in (some parsed) = parsed.shop_id

  -- After a payment for the message's shop and transaction the message changes nothing.
  settled :
      (now now' : ℕ) (m : Message L) (b t : Billing) (r : Resolved) (receipt : Receipt)
      (p : Payment)
      → record_payment now r.subscription receipt b ≡ (ok p, t)
      → Names (ref_of L S m) r
      → receipt.transaction_id ≡ transaction_of L S m
      → Guarded L S m t (λ time. deliver L S time m t)
      → (deliver L S now' m t).1 ≡ t
  settled now now' m b t r receipt p ran names txn (inl same) = same now'
  settled now now' m b t r receipt p ran (parsed, h, k) txn (inr (_, credits)) =
      let (r', receipt', p', t', reply, e, (parsed', h', k'), txn', ran', out) = credits now' in
      let shop = sym k' ∙ ap shop_in (sym h' ∙ h) ∙ k in
      let again =
        record_payment-again now now' r.subscription r'.subscription receipt receipt' b t p ran
          (ap pos_part shop) (txn' ∙ sym txn) in
      ap (λ (o : Result Reply × Billing). o.1) out
      ∙ ap (λ (o : Result Payment × Billing). o.1) (sym ran' ∙ again)

  -- A message that comes again, at any time, changes nothing more.
  pub deliver-again :
      (now now' : ℕ) (m : Message L) (b : Billing)
      → (deliver L S now' m (deliver L S now m b).1).1 ≡ (deliver L S now m b).1
  deliver-again now now' m b = elim (deliver-Guarded m b) [
    | inl same ↦ ap (λ t. (deliver L S now' m t).1) (same now) ∙ same now' ∙ sym (same now)
    | inr (_, credits) ↦
        let (r, receipt, p, t, reply, e, names, txn, ran, out) = credits now in
        let left = ap (λ (o : Result Reply × Billing). o.1) out in
        ap (λ u. (deliver L S now' m u).1) left
        ∙ settled now now' m b t r receipt p ran names txn (deliver-Guarded m t)
        ∙ sym left
  ]
