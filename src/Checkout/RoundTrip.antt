-- ===== src/Checkout/RoundTrip.antt =====
-- app/billing/refs.py: a reference that was built is read back.
use skladbase.Prelude.{ℕ, ◌≡◌, refl, ap, ◌∙◌, true, false, some, List, [], ◌∷◌, arith}
use skladbase.Prelude.Int.{pos}
use skladbase.Prelude.Texts.{str, join}
use skladbase.Prelude.Numerals.{Lacks, split-join, int-str, str-Lacks}
use skladbase.Models.{SubPeriod}
use skladbase.Checkout.Refs.{
  separator, is_valid_period, build_ref, parse_ref, is_empty, period_value, of_parts, checked_ref,
}

is_valid_period-value : (period : SubPeriod) → is_valid_period (period_value period) ≡ true
unfolding is_valid_period
is_valid_period-value SubPeriod.month = refl
is_valid_period-value SubPeriod.year = refl

value-Lacks : (period : SubPeriod) → Lacks separator (period_value period)
value-Lacks SubPeriod.month = (refl, (refl, (refl, (refl, (refl, tt)))))
value-Lacks SubPeriod.year = (refl, (refl, (refl, (refl, tt))))

-- A reference built for a shop, a plan whose code is not empty and has no dot, and a period, with a
-- nonce without dots, is built, and is read back to the same shop, plan and period.
pub parse_ref-build_ref :
    (shop_id : ℕ) (plan_code : List ℕ) (period : SubPeriod) (nonce : List ℕ)
    → is_empty plan_code ≡ false
    → Lacks separator plan_code
    → Lacks separator nonce
    → (ref : List ℕ) × (build_ref shop_id plan_code (period_value period) nonce ≡ some ref)
      × (parse_ref ref
          ≡ some (record {
            shop_id = pos shop_id;
            plan_code = plan_code;
            period = period_value period;
          }))
unfolding build_ref parse_ref
parse_ref-build_ref shop_id plan_code period nonce filled h k =
    let value = period_value period in
    let valid = is_valid_period-value period in
    let parts = plan_code ∷ value ∷ nonce ∷ [] in
    let read =
      split-join separator (str shop_id) parts (str-Lacks separator shop_id (omega arith))
        (h, (value-Lacks period, (k, tt))) in
    (
      join separator (str shop_id ∷ parts),
      rw valid refl,
      ap of_parts read
          ∙ ap (checked_ref plan_code value) (int-str shop_id)
          ∙ rw (valid, filled) refl,
    )
