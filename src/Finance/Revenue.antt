-- ===== src/Finance/Revenue.antt =====
-- app/api/finance.py: what the sale of a reservation adds to the sums.
use skladbase.Prelude.{
  ℕ, ◌+◌, ◌≡◌, refl, ◌∙◌, ap, true, false, Option, none, some, List, ◌∷◌, arith,
}
use skladbase.Prelude.Int.{ℤ, pos, negsuc, ◌+ℤ◌, ◌-ℤ◌, ◌*ℤ◌, ◌≤ℤ◌, neg_ℤ, is_zero_ℤ, int_laws}
use skladbase.Prelude.Tables.{select_one, total, All-select_one}
use skladbase.Models.{Variant, Reservation, StockMovement, MovementType, is_active}
use skladbase.Session.{Session}
use skladbase.Inventory.{movement, owns_reservation, owns_variant, journal, fulfill}
use skladbase.Inventory.Accepts.{fulfill-accepts}
use skladbase.Inventory.Invariant.Counts.{Inv}
use skladbase.Finance.{
  Period, period_since, period_days, before, in_view, is_since, finance_summary, movement_totals,
  revenue_of, units_of, abs_ℤ,
}

is_since-before : (now : ℕ) (n : Option ℕ) → is_since (before now n) now ≡ true
is_since-before now none = refl
is_since-before now (some n) = ground arith

abs_ℤ-neg_ℤ : (a : ℤ) → pos 1 ≤ℤ a → abs_ℤ (neg_ℤ a) ≡ a
unfolding ◌-ℤ◌
abs_ℤ-neg_ℤ (pos n) h = ground arith
abs_ℤ-neg_ℤ (negsuc n) h = absurd (omega arith)

-- The journal with one sale more.
sold-summary :
    (now shop : ℕ) (period : Period) (m : StockMovement) (ms : List StockMovement)
    → in_view shop MovementType.sale (period_since now period) m ≡ true
    → in_view shop MovementType.ret (period_since now period) m ≡ false
    → let old = finance_summary now period shop ms in
      let new = finance_summary now period shop (m ∷ ms) in
      (new.revenue_uah ≡ old.revenue_uah +ℤ revenue_of m)
      × (new.sales_count ≡ old.sales_count + 1)
      × (new.units_sold ≡ old.units_sold +ℤ units_of m)
      × (new.returns_uah ≡ old.returns_uah)
unfolding finance_summary movement_totals total
sold-summary now shop period m ms sale other =
    rw (sale, other) (omega int_laws, omega arith, omega int_laws, refl)

abbrev sale_of : ℕ → ℕ → Reservation → Variant → StockMovement
sale_of now shop r v = record (movement now shop v.id MovementType.sale (neg_ℤ r.qty)) {
  order_id = r.order_id;
  reservation_id = some r.id;
  price_at = some v.price;
}

is_zero_ℤ-neg_ℤ : (a : ℤ) → pos 1 ≤ℤ a → is_zero_ℤ (neg_ℤ a) ≡ false
unfolding ◌-ℤ◌
is_zero_ℤ-neg_ℤ (pos n) h = ground arith
is_zero_ℤ-neg_ℤ (negsuc n) h = absurd (omega arith)

journal-sale :
    (now shop : ℕ) (r : Reservation) (v : Variant) (ms : List StockMovement)
    → pos 1 ≤ℤ r.qty
    → journal (sale_of now shop r v) ms ≡ sale_of now shop r v ∷ ms
unfolding journal
journal-sale now shop r v ms h = rw (is_zero_ℤ-neg_ℤ r.qty h) refl

-- In a sound database, to fulfil an active reservation of the shop, whose variant is one of the
-- shop, raises the revenue of the summary of any period by the quantity times the variant's price,
-- the sales by one and the units sold by the quantity, and leaves the returns.
pub fulfill-earns :
    (base : ℕ → ℤ) (now shop k : ℕ) (period : Period) (s : Session) (r : Reservation) (v : Variant)
    → Inv base s.work
    → select_one (owns_reservation shop k) s.work.reservations ≡ some r
    → select_one (owns_variant shop r.variant_id) s.work.variants ≡ some v
    → is_active r.status ≡ true
    → let old = finance_summary now period shop s.work.movements in
      let new = finance_summary now period shop (fulfill now shop k false s).1.work.movements in
      (new.revenue_uah ≡ old.revenue_uah +ℤ r.qty *ℤ v.price)
      × (new.sales_count ≡ old.sales_count + 1)
      × (new.units_sold ≡ old.units_sold +ℤ r.qty)
      × (new.returns_uah ≡ old.returns_uah)
fulfill-earns base now shop k period s r v inv er ev a =
    let positive =
      All-select_one (λ x. pos 1 ≤ℤ x.qty) (owns_reservation shop k) s.work.reservations
        inv.positive er in
    let sale = sale_of now shop r v in
    let moved : (fulfill now shop k false s).1.work.movements ≡ sale ∷ s.work.movements =
      ap (λ x. x.1.work.movements) (fulfill-accepts base now shop k s r v inv er ev a)
      ∙ journal-sale now shop r v s.work.movements positive in
    let viewed : in_view shop MovementType.sale (period_since now period) sale ≡ true =
      rw (is_since-before now (period_days period)) (ground arith) in
    let old = finance_summary now period shop s.work.movements in
    let size = abs_ℤ-neg_ℤ r.qty positive in
    let sum = sold-summary now shop period sale s.work.movements viewed (ground arith) in
    rw moved (
      sum.0 ∙ ap (λ x. old.revenue_uah +ℤ x *ℤ v.price) size,
      sum.1,
      sum.2 ∙ ap (λ x. old.units_sold +ℤ x) size,
      sum.3,
    )
