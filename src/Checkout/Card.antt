-- ===== src/Checkout/Card.antt =====
-- app/api/payment_webhooks.py: each way through `wayforpay_webhook`.
use skladbase.Prelude.{◌≡◌, refl, sym, ap, subst, inl, String, Option, none, some}
use skladbase.Models.{server_error, Billing}
use skladbase.Session.{or_raise, ◌>>=◌, transaction}
use skladbase.Checkout.Webhooks.{
  Libraries, Secrets, Verdict, Resolved, PaymentResult, get_or, resolve_from_ref, verify_callback,
  card_verified, card_genuine, card_resolved, card_receipt, parse_callback, build_accept_response,
}
use skladbase.Checkout.Messages.{card, Guarded, Genuine, credited}

module _ (L : Libraries) (S : Secrets) where
  card_parsed :
      (body : L.Json) (ref : String) (b : Billing) (r : Resolved) (result : Option PaymentResult)
      → Genuine L S (card body)
      → L.item body "orderReference" ≡ some ref
      → resolve_from_ref ref b ≡ some r
      → parse_callback L S body ref r.period ≡ result
      → Guarded L S (card body) b (λ now. transaction (card_resolved L S now body ref (some r)) b)
  card_parsed body ref b r none g i e k = rw k (inl (λ _. refl))
  card_parsed body ref b r (some result) g i e k = rw k (
      credited L S (card body) b r (card_receipt L S body ref r.plan result)
        (λ now. build_accept_response L S now ref) g (subst Resolves (sym (ap (get_or "") i)) e)
        (sym (ap (get_or "") i)))
    where
      Resolves : String → Type 0
      Resolves text = resolve_from_ref text b ≡ some r

  card_found :
      (body : L.Json) (ref : String) (b : Billing) (o : Option Resolved)
      → Genuine L S (card body)
      → L.item body "orderReference" ≡ some ref
      → resolve_from_ref ref b ≡ o
      → Guarded L S (card body) b (λ now. transaction (card_resolved L S now body ref o) b)
  card_found body ref b none g i e = inl (λ _. refl)
  card_found body ref b (some r) g i e =
      card_parsed body ref b r (parse_callback L S body ref r.period) g i e refl

  card_ordered :
      (body : L.Json) (b : Billing) (o : Option String)
      → Genuine L S (card body)
      → L.item body "orderReference" ≡ o
      → Guarded L S
          (card body)
          b
          (λ now. transaction (or_raise o server_error >>= card_genuine L S now body) b)
  card_ordered body b none g i = inl (λ _. refl)
  card_ordered body b (some ref) g i = card_found body ref b (resolve_from_ref ref b) g i refl

  pub card_answered :
      (body : L.Json) (b : Billing) (v : Verdict)
      → verify_callback L S body ≡ v
      → Guarded L S (card body) b (λ now. transaction (card_verified L S now body v) b)
  card_answered body b Verdict.unreadable e = inl (λ _. refl)
  card_answered body b Verdict.forged e = inl (λ _. refl)
  card_answered body b Verdict.crashed e = inl (λ _. refl)
  card_answered body b Verdict.genuine e = card_ordered body b (L.item body "orderReference") e refl
