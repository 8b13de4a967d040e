-- ===== src/Checkout/Crypto.antt =====
-- app/api/payment_webhooks.py: each way through `nowpayments_webhook`.
use skladbase.Prelude.{
  ℕ, ◌≡◌, refl, sym, ap, ◌∙◌, subst, if◌then◌else◌, inl, String, Bool, true, false, Option, none,
  some, List, arith,
}
use skladbase.Models.{Billing}
use skladbase.Session.{transaction}
use skladbase.Checkout.Webhooks.{
  Libraries, Secrets, Verdict, Resolved, PaymentResult, Ipn, received, get_or, paid, not_yet,
  broken, resolve_from_ref, verify_ipn, crypto_verified, crypto_loaded, crypto_resolved,
  crypto_paid, crypto_receipt, parse_ipn, is_finished, of_payment,
}
use skladbase.Checkout.Messages.{crypto, Guarded, credited, loaded_item}

module _ (L : Libraries) (S : Secrets) where
  abbrev paid_as : Ipn → String
  paid_as (paid result) = result.external_id
  paid_as _ = ""

  of_payment_lem :
      (period : List ℕ) (amount : Option ℕ) (payment_id : Option String) {result : PaymentResult}
      → of_payment L S period amount payment_id ≡ paid result
      → result.external_id ≡ get_or "" payment_id
  of_payment_lem period none payment_id e = absurd (ground arith)
  of_payment_lem period (some amount) none e = absurd (ground arith)
  of_payment_lem period (some amount) (some payment_id) e = sym (ap paid_as e)

  when_lem :
      (finished : Bool) (period : List ℕ) (amount : Option ℕ) (payment_id : Option String)
      {result : PaymentResult}
      → (if finished then of_payment L S period amount payment_id else not_yet) ≡ paid result
      → (finished ≡ true) × (result.external_id ≡ get_or "" payment_id)
  when_lem true period amount payment_id e = (refl, of_payment_lem period amount payment_id e)
  when_lem false period amount payment_id e = absurd (ground arith)

  parse_ipn_lem :
      (body : L.Json) (period : List ℕ) {result : PaymentResult}
      → parse_ipn L S body period ≡ paid result
      → (is_finished L S (get_or "" (L.get body "payment_status")) ≡ true)
        × (result.external_id ≡ get_or "" (L.item body "payment_id"))
  unfolding parse_ipn
  parse_ipn_lem body period = when_lem _ period _ _

  crypto_parsed :
      (raw_body signature : List ℕ) (body : L.Json) (b : Billing) (r : Resolved) (ipn : Ipn)
      → verify_ipn L S raw_body signature ≡ Verdict.genuine
      → L.loads raw_body ≡ some body
      → resolve_from_ref (get_or "" (L.item body "order_id")) b ≡ some r
      → parse_ipn L S body r.period ≡ ipn
      → Guarded L S (crypto raw_body signature) b (λ now. transaction (crypto_paid L S now r ipn) b)
  crypto_parsed raw_body signature body b r broken v l e k = inl (λ _. refl)
  crypto_parsed raw_body signature body b r not_yet v l e k = inl (λ _. refl)
  crypto_parsed raw_body signature body b r (paid result) v l e k =
      let (done, txn) = parse_ipn_lem body r.period k in
      credited L S (crypto raw_body signature) b r (crypto_receipt L S r.plan result)
        (λ _. received) (v, body, l, done)
        (subst Resolves (sym (ap (loaded_item L S "order_id") l)) e)
        (txn ∙ sym (ap (loaded_item L S "payment_id") l))
    where
      Resolves : String → Type 0
      Resolves text = resolve_from_ref text b ≡ some r

  crypto_found :
      (raw_body signature : List ℕ) (body : L.Json) (b : Billing) (o : Option Resolved)
      → verify_ipn L S raw_body signature ≡ Verdict.genuine
      → L.loads raw_body ≡ some body
      → resolve_from_ref (get_or "" (L.item body "order_id")) b ≡ o
      → Guarded L S
          (crypto raw_body signature)
          b
          (λ now. transaction (crypto_resolved L S now body o) b)
  crypto_found raw_body signature body b none v l e = inl (λ _. refl)
  crypto_found raw_body signature body b (some r) v l e =
      crypto_parsed raw_body signature body b r (parse_ipn L S body r.period) v l e refl

  crypto_read :
      (raw_body signature : List ℕ) (b : Billing) (o : Option L.Json)
      → verify_ipn L S raw_body signature ≡ Verdict.genuine
      → L.loads raw_body ≡ o
      → Guarded L S (crypto raw_body signature) b (λ now. transaction (crypto_loaded L S now o) b)
  crypto_read raw_body signature b none v l = inl (λ _. refl)
  crypto_read raw_body signature b (some body) v l =
      crypto_found raw_body signature body b
        (resolve_from_ref (get_or "" (L.item body "order_id")) b) v l refl

  pub crypto_answered :
      (raw_body signature : List ℕ) (b : Billing) (v : Verdict)
      → verify_ipn L S raw_body signature ≡ v
      → Guarded L S
          (crypto raw_body signature)
          b
          (λ now. transaction (crypto_verified L S now raw_body v) b)
  crypto_answered raw_body signature b Verdict.unreadable e = inl (λ _. refl)
  crypto_answered raw_body signature b Verdict.forged e = inl (λ _. refl)
  crypto_answered raw_body signature b Verdict.crashed e = inl (λ _. refl)
  crypto_answered raw_body signature b Verdict.genuine e =
      crypto_read raw_body signature b (L.loads raw_body) e refl
