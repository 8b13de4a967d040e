-- ===== src/Finance.antt =====
-- app/api/finance.py: the sums of a shop's journal. A NULL price adds nothing to a sum.
pub mod Revenue
use skladbase.Prelude.{
  ℕ, ◌+◌, ◌*◌, ◌-◌, Bool, true, false, ◌&&◌, Option, none, some, List, [], ◌∷◌, ◌==◌, leb, is_some,
  if◌then◌else◌, keep, length,
}
use skladbase.Prelude.Int.{ℤ, pos, ◌-ℤ◌, ◌*ℤ◌, pos_part, neg_part}
use skladbase.Prelude.Tables.{total}
use skladbase.Models.{StockMovement, MovementType, days}

pub data Period : Type 0 where
  week month year all : Period

abbrev pub period_days : Period → Option ℕ
period_days Period.week = some 7
period_days Period.month = some 30
period_days Period.year = some 365
period_days Period.all = none

abbrev pub before : ℕ → Option ℕ → Option ℕ
before now none = none
before now (some n) = some (now - days n)

-- `_period_since`; a time is past its first year.
abbrev pub period_since : ℕ → Period → Option ℕ
period_since now period = before now (period_days period)

abbrev pub same_type : MovementType → MovementType → Bool
same_type MovementType.sale MovementType.sale = true
same_type MovementType.restock MovementType.restock = true
same_type MovementType.reserve MovementType.reserve = true
same_type MovementType.release MovementType.release = true
same_type MovementType.adjustment MovementType.adjustment = true
same_type MovementType.ret MovementType.ret = true
same_type _ _ = false

abbrev pub is_since : Option ℕ → ℕ → Bool
is_since none t = true
is_since (some since) t = leb since t

abbrev pub in_view : ℕ → MovementType → Option ℕ → StockMovement → Bool
in_view shop_id movement_type since m =
    m.shop_id == shop_id && (same_type m.type_of movement_type && is_since since m.created_at)

-- `func.abs`
abbrev pub abs_ℤ : ℤ → ℤ
abs_ℤ a = pos (pos_part a + neg_part a)

abbrev pub units_of : StockMovement → ℤ
units_of m = abs_ℤ m.delta

abbrev pub worth : ℤ → Option ℤ → ℤ
worth delta none = pos 0
worth delta (some price) = abs_ℤ delta *ℤ price

abbrev pub revenue_of : StockMovement → ℤ
revenue_of m = worth m.delta m.price_at

-- What `_movement_totals` returns: how many, of how many units, for how much.
pub record Totals : Type 0 where
  pub count : ℕ
  pub unit_count : ℤ
  pub revenue : ℤ

unfoldable pub movement_totals : ℕ → MovementType → Option ℕ → List StockMovement → Totals
unfolding total
movement_totals shop_id movement_type since movements =
    let rows = keep (in_view shop_id movement_type since) movements in
    record {
      count = length rows;
      unit_count = total units_of rows;
      revenue = total revenue_of rows;
    }

-- The sums of `finance_summary`, without the chart and the lists by product.
pub record Summary : Type 0 where
  pub revenue_uah : ℤ
  pub sales_count : ℕ
  pub units_sold : ℤ
  pub returns_uah : ℤ
  pub returns_count : ℕ

unfoldable pub finance_summary : ℕ → Period → ℕ → List StockMovement → Summary
unfolding movement_totals
finance_summary now period shop_id movements =
    let since = period_since now period in
    let sales = movement_totals shop_id MovementType.sale since movements in
    let returns = movement_totals shop_id MovementType.ret since movements in
    record {
      revenue_uah = sales.revenue -ℤ returns.revenue;
      sales_count = sales.count;
      units_sold = sales.unit_count;
      returns_uah = returns.revenue;
      returns_count = returns.count;
    }
