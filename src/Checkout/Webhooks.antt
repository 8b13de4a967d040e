-- ===== src/Checkout/Webhooks.antt =====
-- app/billing/providers.py and app/api/payment_webhooks.py: the messages of WayForPay and NOWPayments.
-- JSON, HMAC and `Decimal` are libraries: `Libraries` has what the code calls of them. The state is
-- that of the tables of billing; the handler commits when it returns, and an exception rolls back.
use skladbase.Prelude.{
  ℕ, String, Bool, true, false, ◌&&◌, ◌||◌, Option, none, some, List, [], ◌∷◌, ◌==◌, ltb,
  if◌then◌else◌, has_text,
}
use skladbase.Prelude.Int.{ℤ, pos, negsuc}
use skladbase.Prelude.Tables.{select_one}
use skladbase.Prelude.Texts.{codes, str, join, same_codes}
use skladbase.Models.{server_error, SubProvider, SubPeriod, Plan, Subscription, Billing}
use skladbase.Session.{Action, pure, raise, or_raise, gets, ◌>>=◌, ◌>>◌, transaction}
use skladbase.Subscriptions.{Receipt, record_payment}
use skladbase.Checkout.Refs.{ParsedRef, parse_ref}

-- Texts are lists of code points here. `Json` is the type of the objects that `json.loads` makes.
pub record Libraries : Type 1 where
  pub Json : Type 0
  -- `json.loads(body)`, with `none` for a JSONDecodeError
  pub loads : List ℕ → Option Json
  -- `json.dumps(…, separators=(",", ":"), sort_keys=True)`
  pub dumps : Json → List ℕ
  -- `str(data[key])`, with `none` for a KeyError
  pub item : Json → String → Option String
  -- `data.get(key)`, a text
  pub get : Json → String → Option String
  -- `hmac.new(secret, text, hashlib.md5).hexdigest()`, and the same with sha512
  pub hmac_md5 : List ℕ → List ℕ → List ℕ
  pub hmac_sha512 : List ℕ → List ℕ → List ℕ
  -- `Decimal(text)` in hundredths, with `none` for an exception
  pub decimal_of : String → Option ℕ

-- `settings.WFP_SECRET` and `settings.NOWPAYMENTS_IPN_SECRET`
pub record Secrets : Type 0 where
  pub wfp_secret : List ℕ
  pub ipn_secret : List ℕ

-- What checking a signature comes to: an answer, the KeyError or JSONDecodeError that the handler
-- catches, or the TypeError of `compare_digest`, which it does not.
pub data Verdict : Type 0 where
  genuine forged unreadable crashed : Verdict

unfoldable pub is_ascii : List ℕ → Bool
is_ascii [] = true
is_ascii (c ∷ cs) = ltb c 128 && is_ascii cs

unfoldable pub compare_digest : List ℕ → List ℕ → Verdict
unfolding is_ascii same_codes
compare_digest expected given =
    if is_ascii given
    then if same_codes expected given then Verdict.genuine else Verdict.forged
    else Verdict.crashed

abbrev pub get_or : String → Option String → String
get_or default none = default
get_or default (some t) = t

abbrev onto : Option String → Option (List (List ℕ)) → Option (List (List ℕ))
onto (some text) (some rest) = some (codes text ∷ rest)
onto _ _ = none

-- `[data[k] for k in keys]`
unfoldable pub items : (String → Option String) → List String → Option (List (List ℕ))
items get [] = some []
items get (k ∷ ks) = onto (get k) (items get ks)

pub record PaymentResult : Type 0 where
  pub amount : ℕ
  pub currency : String
  pub external_id : String
  pub is_recurring : Bool
  pub auto_renew : Bool
  pub period : List ℕ

abbrev pub matches : ℤ → ℕ → Bool
matches (pos n) k = k == n
matches (negsuc n) k = false

-- The subscription, the plan and the period that a reference stands for.
pub record Resolved : Type 0 where
  pub subscription : Subscription
  pub plan : Plan
  pub period : List ℕ

abbrev pub with_plan : List ℕ → Subscription → Option Plan → Option Resolved
with_plan period sub none = none
with_plan period sub (some plan) =
    some (record { subscription = sub; plan = plan; period = period })

abbrev pub with_subscription : Billing → ParsedRef → Option Subscription → Option Resolved
with_subscription b parsed none = none
with_subscription b parsed (some sub) =
    with_plan parsed.period sub
      (select_one (λ p. same_codes (codes p.code) parsed.plan_code) b.plans)

abbrev pub resolved_in : Billing → Option ParsedRef → Option Resolved
resolved_in b none = none
resolved_in b (some parsed) =
    with_subscription b parsed (select_one (λ s. matches parsed.shop_id s.shop_id) b.subscriptions)

-- `_resolve_from_ref`
unfoldable pub resolve_from_ref : String → Billing → Option Resolved
unfolding parse_ref select_one same_codes
resolve_from_ref ref b = resolved_in b (parse_ref (codes ref))

-- `SubPeriod.year if period == "year" else SubPeriod.month`
abbrev pub paid_period : List ℕ → SubPeriod
paid_period period = if same_codes period (codes "year") then SubPeriod.year else SubPeriod.month

-- What the provider is answered: 400, 200, or WayForPay's `build_accept_response`.
pub data Reply : Type 0 where
  bad received : Reply
  accepts : String → ℕ → List ℕ → Reply

-- What `parse_ipn` comes to: a result, or nothing yet, or an exception.
pub data Ipn : Type 0 where
  paid : PaymentResult → Ipn
  not_yet broken : Ipn

module _ (L : Libraries) (S : Secrets) where
  -- `WayForPayProvider._sign`
  unfoldable pub sign : List (List ℕ) → List ℕ
  unfolding join
  sign fields = L.hmac_md5 S.wfp_secret (join b';' fields)

  abbrev pub signed_keys : List String
  signed_keys =
      "merchantAccount" ∷ "orderReference" ∷ "amount" ∷ "currency" ∷ "authCode" ∷ "cardPan"
      ∷ "transactionStatus" ∷ "reasonCode" ∷ []

  abbrev pub compared_with : String → Option (List (List ℕ)) → Verdict
  compared_with signature none = Verdict.unreadable
  compared_with signature (some fields) = compare_digest (sign fields) (codes signature)

  unfoldable pub verify_callback : L.Json → Verdict
  unfolding items compare_digest sign
  verify_callback body =
      compared_with (get_or "" (L.item body "merchantSignature")) (items (L.item body) signed_keys)

  -- `parse_callback`, with `none` for an exception; `order_reference` is `data["orderReference"]`
  abbrev pub of_amount : L.Json → String → List ℕ → Option ℕ → Option PaymentResult
  of_amount body order_reference period none = none
  of_amount body order_reference period (some amount) = some (record {
    amount = amount;
    currency = get_or "UAH" (L.item body "currency");
    external_id =
        if has_text (L.get body "recToken")
        then get_or "" (L.get body "recToken")
        else order_reference;
    is_recurring = false;
    auto_renew = true;
    period = period;
  })

  abbrev pub read_amount : Option String → Option ℕ
  read_amount none = none
  read_amount (some text) = L.decimal_of text

  unfoldable pub parse_callback : L.Json → String → List ℕ → Option PaymentResult
  parse_callback body order_reference period =
      of_amount body order_reference period (read_amount (L.item body "amount"))

  unfoldable pub build_accept_response : ℕ → String → Reply
  unfolding sign
  build_accept_response now order_ref =
      accepts order_ref now (sign (codes order_ref ∷ codes "accept" ∷ str now ∷ []))

  abbrev pub card_receipt : L.Json → String → Plan → PaymentResult → Receipt
  card_receipt body order_reference plan result = record {
    provider = SubProvider.card;
    plan = plan;
    period = paid_period result.period;
    amount = result.amount;
    currency = result.currency;
    transaction_id = order_reference;
    recurring_token = L.get body "recToken";
    is_recurring = result.is_recurring;
    auto_renew = result.auto_renew;
  }

  abbrev pub card_paid : ℕ → L.Json → String → Resolved → PaymentResult → Action Billing Reply
  card_paid now body order_reference r result =
      record_payment now r.subscription (card_receipt body order_reference r.plan result)
      >> pure (build_accept_response now order_reference)

  abbrev pub card_resolved : ℕ → L.Json → String → Option Resolved → Action Billing Reply
  card_resolved now body order_reference none = pure bad
  card_resolved now body order_reference (some r) =
      or_raise (parse_callback body order_reference r.period) server_error
      >>= card_paid now body order_reference r

  abbrev pub card_genuine : ℕ → L.Json → String → Action Billing Reply
  card_genuine now body order_reference = do
    resolved ← gets (resolve_from_ref order_reference)
    card_resolved now body order_reference resolved

  abbrev pub card_verified : ℕ → L.Json → Verdict → Action Billing Reply
  card_verified now body Verdict.unreadable = pure bad
  card_verified now body Verdict.forged = pure bad
  card_verified now body Verdict.crashed = raise server_error
  card_verified now body Verdict.genuine =
      or_raise (L.item body "orderReference") server_error >>= card_genuine now body

  unfoldable pub wayforpay_webhook : ℕ → L.Json → Action Billing Reply
  unfolding verify_callback
  wayforpay_webhook now body = transaction (card_verified now body (verify_callback body))

  -- `NowPaymentsProvider.verify_ipn`
  abbrev pub verified_body : List ℕ → Option L.Json → Verdict
  verified_body signature none = Verdict.unreadable
  verified_body signature (some body) =
      compare_digest (L.hmac_sha512 S.ipn_secret (L.dumps body)) signature

  unfoldable pub verify_ipn : List ℕ → List ℕ → Verdict
  unfolding compare_digest
  verify_ipn raw_body signature = verified_body signature (L.loads raw_body)

  -- `data.get("payment_status") in ("finished", "confirmed")`
  abbrev pub is_finished : String → Bool
  is_finished status =
      same_codes (codes status) (codes "finished") || same_codes (codes status) (codes "confirmed")

  abbrev pub of_payment : List ℕ → Option ℕ → Option String → Ipn
  of_payment period (some amount) (some payment_id) = paid (record {
    amount = amount;
    currency = "USD";
    external_id = payment_id;
    is_recurring = false;
    auto_renew = false;
    period = period;
  })
  of_payment period _ _ = broken

  -- `parse_ipn`
  unfoldable pub parse_ipn : L.Json → List ℕ → Ipn
  parse_ipn body period =
      if is_finished (get_or "" (L.get body "payment_status"))
      then of_payment period (read_amount (L.item body "price_amount")) (L.item body "payment_id")
      else not_yet

  abbrev pub crypto_receipt : Plan → PaymentResult → Receipt
  crypto_receipt plan result = record {
    provider = SubProvider.crypto;
    plan = plan;
    period = paid_period result.period;
    amount = result.amount;
    currency = result.currency;
    transaction_id = result.external_id;
    recurring_token = none;
    is_recurring = result.is_recurring;
    auto_renew = result.auto_renew;
  }

  abbrev pub crypto_paid : ℕ → Resolved → Ipn → Action Billing Reply
  crypto_paid now r broken = raise server_error
  crypto_paid now r not_yet = pure received
  crypto_paid now r (paid result) =
      record_payment now r.subscription (crypto_receipt r.plan result) >> pure received

  abbrev pub crypto_resolved : ℕ → L.Json → Option Resolved → Action Billing Reply
  crypto_resolved now body none = pure bad
  crypto_resolved now body (some r) = crypto_paid now r (parse_ipn body r.period)

  abbrev pub crypto_loaded : ℕ → Option L.Json → Action Billing Reply
  crypto_loaded now none = raise server_error
  crypto_loaded now (some body) = do
    resolved ← gets (resolve_from_ref (get_or "" (L.item body "order_id")))
    crypto_resolved now body resolved

  abbrev pub crypto_verified : ℕ → List ℕ → Verdict → Action Billing Reply
  crypto_verified now raw_body Verdict.unreadable = pure bad
  crypto_verified now raw_body Verdict.forged = pure bad
  crypto_verified now raw_body Verdict.crashed = raise server_error
  crypto_verified now raw_body Verdict.genuine = crypto_loaded now (L.loads raw_body)

  unfoldable pub nowpayments_webhook : ℕ → List ℕ → List ℕ → Action Billing Reply
  unfolding verify_ipn
  nowpayments_webhook now raw_body signature =
      transaction (crypto_verified now raw_body (verify_ipn raw_body signature))
