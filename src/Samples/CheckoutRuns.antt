-- ===== src/Samples/CheckoutRuns.antt =====
-- The theorems on checkouts, with stand-ins for the libraries: a signature is the secret itself.
use skladbase.Prelude.{
  ℕ, String, ◌≡◌, refl, Option, none, some, List, [], ◌∷◌, str_eq, if◌then◌else◌,
}
use skladbase.Prelude.Int.{pos}
use skladbase.Prelude.Tables.{find, select_one}
use skladbase.Prelude.Texts.{codes, str, join, same_codes}
use skladbase.Models.{SubPeriod, Billing}
use skladbase.Session.{ok}
use skladbase.Subscriptions.{period_delta}
use skladbase.Subscriptions.Payments.{Renewed}
use skladbase.Checkout.Refs.{build_ref, parse_ref, is_valid_period}
use skladbase.Checkout.RoundTrip.{parse_ref-build_ref}
use skladbase.Checkout.Webhooks.{
  Libraries, Secrets, verify_callback, wayforpay_webhook, build_accept_response, items, sign,
  compare_digest, is_ascii,
}
use skladbase.Checkout.Messages.{card, deliver, Guarded}
use skladbase.Checkout.Delivery.{deliver-Guarded, deliver-again}
use skladbase.Checkout.Activation.{wayforpay_webhook-renews}
use skladbase.Samples.BillingRuns.{basic, lapsed, books}

abbrev fields : List (String × String)
fields =
    ("merchantAccount", "m")
    ∷ ("orderReference", "7.basic.month.ab12")
    ∷ ("amount", "150.00")
    ∷ ("currency", "UAH")
    ∷ ("authCode", "1")
    ∷ ("cardPan", "4")
    ∷ ("transactionStatus", "Approved")
    ∷ ("reasonCode", "1100")
    ∷ ("merchantSignature", "wfp")
    ∷ ("recToken", "tok")
    ∷ []

abbrev lookup : List (String × String) → String → Option String
lookup [] key = none
lookup (f ∷ fs) key = if str_eq f.0 key then some f.1 else lookup fs key

abbrev read : List ℕ → Option (List (String × String))
read text = some fields

abbrev dump : List (String × String) → List ℕ
dump body = []

abbrev own : List ℕ → List ℕ → List ℕ
own secret text = secret

abbrev price : String → Option ℕ
price text = if str_eq text "150.00" then some 15000 else none

abbrev libraries : Libraries
libraries = record {
  Json = List (String × String);
  loads = read;
  dumps = dump;
  item = lookup;
  get = lookup;
  hmac_md5 = own;
  hmac_sha512 = own;
  decimal_of = price;
}

abbrev secrets : Secrets
secrets = record { wfp_secret = codes "wfp"; ipn_secret = codes "ipn" }

parse_ref-build_ref_example :
    (ref : List ℕ) × (build_ref 7 (codes "basic") (codes "month") (codes "ab12") ≡ some ref)
    × (parse_ref ref
        ≡ some (record { shop_id = pos 7; plan_code = codes "basic"; period = codes "month" }))
parse_ref-build_ref_example =
    parse_ref-build_ref 7 (codes "basic") SubPeriod.month (codes "ab12") refl
      (refl, (refl, (refl, (refl, (refl, tt))))) (refl, (refl, (refl, (refl, tt))))

deliver-Guarded_example :
    Guarded libraries secrets
      (card fields)
      books
      (λ now. deliver libraries secrets now (card fields) books)
deliver-Guarded_example = deliver-Guarded libraries secrets (card fields) books

deliver-again_example :
    (deliver libraries secrets 2000
      (card fields)
      (deliver libraries secrets 1000 (card fields) books).1).1
    ≡ (deliver libraries secrets 1000 (card fields) books).1
deliver-again_example = deliver-again libraries secrets 1000 2000 (card fields) books

wayforpay_webhook-renews_example :
    (t : Billing) × (wayforpay_webhook libraries secrets 1000 fields books
      ≡ (ok (build_accept_response libraries secrets 1000 "7.basic.month.ab12"), t))
    × Renewed 1000 lapsed (period_delta SubPeriod.month) t
unfolding build_ref is_valid_period str join select_one find same_codes verify_callback items sign
    compare_digest is_ascii
wayforpay_webhook-renews_example =
    wayforpay_webhook-renews libraries secrets 1000 fields 7 basic SubPeriod.month (codes "ab12")
      "7.basic.month.ab12" lapsed books "150.00" 15000 refl
      (refl, (refl, (refl, (refl, (refl, tt))))) (refl, (refl, (refl, (refl, tt)))) refl refl refl
      refl refl refl refl refl refl
