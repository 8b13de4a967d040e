-- ===== src/Inventory/Stock.antt =====
-- app/services/inventory.py: the operations on a variant alone.
use skladbase.Prelude.{
  ℕ, String, Bool, ◌&&◌, not, Option, none, some, if◌then◌else◌, has_text, is_member, str_eq,
}
use skladbase.Prelude.Int.{ℤ, ◌+ℤ◌, ◌-ℤ◌, neg_ℤ, ltb_ℤ}
use skladbase.Models.{
  conflict, unprocessable_entity, inventory_error, Variant, MovementType, available,
}
use skladbase.Session.{Session, Action, ◌>>=◌, ◌>>◌, raise_if}
use skladbase.Inventory.Tables.{
  write_off_reasons, locked_variant, set_variant, movement, record_movement,
  maybe_reset_low_stock_flag, require_positive_qty, finalize,
}

unfoldable pub sell_direct : ℕ → ℕ → ℕ → ℤ → Option ℕ → Bool → Action Session Variant
sell_direct now shop_id variant_id qty order_id commit = do
  require_positive_qty qty
  variant ← locked_variant shop_id variant_id
  raise_if (ltb_ℤ (available variant) qty) (inventory_error conflict)
  let sold = record variant { on_hand = variant.on_hand -ℤ qty }
  set_variant sold
  record_movement (record (movement now shop_id variant_id MovementType.sale (neg_ℤ qty)) {
    order_id = order_id;
    price_at = some variant.price;
  })
  finalize sold commit

unfoldable pub restock : ℕ → ℕ → ℕ → ℤ → Bool → Action Session Variant
restock now shop_id variant_id qty commit = do
  require_positive_qty qty
  variant ← locked_variant shop_id variant_id
  let filled = maybe_reset_low_stock_flag (record variant { on_hand = variant.on_hand +ℤ qty })
  set_variant filled
  record_movement (movement now shop_id variant_id MovementType.restock qty)
  finalize filled commit

unfoldable pub write_off : ℕ → ℕ → ℕ → ℤ → String → Option String → Bool → Action Session Variant
write_off now shop_id variant_id qty reason comment commit = do
  require_positive_qty qty
  raise_if (not (is_member reason write_off_reasons)) (inventory_error unprocessable_entity)
  raise_if (str_eq reason "other" && not (has_text comment)) (inventory_error unprocessable_entity)
  variant ← locked_variant shop_id variant_id
  raise_if (ltb_ℤ (available variant) qty) (inventory_error conflict)
  let left = record variant { on_hand = variant.on_hand -ℤ qty }
  set_variant left
  let type_of = if str_eq reason "sold" then MovementType.sale else MovementType.adjustment
  let price_at = if str_eq reason "sold" then some variant.price else none
  record_movement (record (movement now shop_id variant_id type_of (neg_ℤ qty)) {
    reason = some reason;
    comment = comment;
    price_at = price_at;
  })
  finalize left commit
