-- ===== src/Checkout/Refs.antt =====
-- app/billing/refs.py: the reference of a checkout, `shop.plan.period.nonce`. A text is a list of code
-- points, a RefError is `none`, and the nonce that `secrets.token_hex` draws is an argument.
use skladbase.Prelude.{
  ℕ, Bool, true, false, ◌||◌, not, Option, none, some, List, [], ◌∷◌, if◌then◌else◌,
}
use skladbase.Prelude.Int.{ℤ}
use skladbase.Prelude.Texts.{codes, str, int, split, join, same_codes}
use skladbase.Models.{SubPeriod}

abbrev pub separator : ℕ
separator = b'.'

-- `SubPeriod.value`
abbrev pub period_value : SubPeriod → List ℕ
period_value SubPeriod.month = codes "month"
period_value SubPeriod.year = codes "year"

-- `period in _VALID_PERIODS`
unfoldable pub is_valid_period : List ℕ → Bool
unfolding same_codes
is_valid_period period = same_codes period (codes "month") || same_codes period (codes "year")

pub record ParsedRef : Type 0 where
  pub shop_id : ℤ
  pub plan_code : List ℕ
  pub period : List ℕ

unfoldable pub build_ref : ℕ → List ℕ → List ℕ → List ℕ → Option (List ℕ)
unfolding is_valid_period str join
build_ref shop_id plan_code period nonce =
    if not (is_valid_period period)
    then none
    else some (join separator (str shop_id ∷ plan_code ∷ period ∷ nonce ∷ []))

-- `not text`
abbrev pub is_empty : List ℕ → Bool
is_empty [] = true
is_empty (_ ∷ _) = false

abbrev pub checked_ref : List ℕ → List ℕ → Option ℤ → Option ParsedRef
checked_ref plan_code period none = none
checked_ref plan_code period (some shop_id) =
    if not (is_valid_period period)
    then none
    else if is_empty plan_code
    then none
    else some (record { shop_id = shop_id; plan_code = plan_code; period = period })

abbrev pub of_parts : List (List ℕ) → Option ParsedRef
of_parts (shop_id_raw ∷ plan_code ∷ period ∷ _nonce ∷ []) =
    checked_ref plan_code period (int shop_id_raw)
of_parts _ = none

unfoldable pub parse_ref : List ℕ → Option ParsedRef
unfolding split is_valid_period int
parse_ref ref = of_parts (split separator ref)
