-- ===== src/Inventory/Tables.antt =====
-- app/services/inventory.py: the locked reads, the journal, and the tail that every operation
-- shares. `SELECT … FOR UPDATE` is the read itself: calls run one after another here.
use skladbase.Prelude.{ℕ, String, Bool, true, false, ◌&&◌, none, List, [], ◌∷◌, ◌==◌, if◌then◌else◌}
use skladbase.Prelude.Int.{ℤ, pos, ltb_ℤ, leb_ℤ, is_zero_ℤ}
use skladbase.Prelude.Tables.{select_one, save}
use skladbase.Models.{
  not_found, bad_request, inventory_error, Variant, Reservation, StockMovement, MovementType,
  available,
}
use skladbase.Session.{
  Session, Action, pure, or_raise, ◌>>=◌, ◌>>◌, raise_if, write, query, commit_all,
}

abbrev pub write_off_reasons : List String
write_off_reasons = "sold" ∷ "defect" ∷ "correction" ∷ "other" ∷ []

abbrev pub release_reasons : List String
release_reasons = "customer_changed_mind" ∷ "unresponsive" ∷ "mistaken_reservation" ∷ "other" ∷ []

abbrev pub not_picked_up_reasons : List String
not_picked_up_reasons = "did_not_pick_up" ∷ "refused" ∷ "other" ∷ []

-- `Variant.id == variant_id, Variant.shop_id == shop_id`
abbrev pub owns_variant : ℕ → ℕ → Variant → Bool
owns_variant shop_id variant_id v = v.id == variant_id && v.shop_id == shop_id

abbrev pub owns_reservation : ℕ → ℕ → Reservation → Bool
owns_reservation shop_id reservation_id r = r.id == reservation_id && r.shop_id == shop_id

abbrev pub locked_variant : ℕ → ℕ → Action Session Variant
locked_variant shop_id variant_id = do
  found ← query (λ d. select_one (owns_variant shop_id variant_id) d.variants)
  or_raise found (inventory_error not_found)

abbrev pub locked_reservation : ℕ → ℕ → Action Session Reservation
locked_reservation shop_id reservation_id = do
  found ← query (λ d. select_one (owns_reservation shop_id reservation_id) d.reservations)
  or_raise found (inventory_error not_found)

-- an assignment to attributes of a row of the session
abbrev pub set_variant : Variant → Action Session (Unit {0})
set_variant v = write (λ d. record d { variants = save Variant.id v d.variants })

abbrev pub set_reservation : Reservation → Action Session (Unit {0})
set_reservation r = write (λ d. record d { reservations = save Reservation.id r d.reservations })

-- A movement with the defaults of `_record_movement`.
abbrev pub movement : ℕ → ℕ → ℕ → MovementType → ℤ → StockMovement
movement now shop_id variant_id type_of delta = record {
  shop_id = shop_id;
  variant_id = variant_id;
  order_id = none;
  reservation_id = none;
  type_of = type_of;
  delta = delta;
  reason = none;
  comment = none;
  price_at = none;
  created_at = now;
}

-- A movement of nothing is not written.
unfoldable pub journal : StockMovement → List StockMovement → List StockMovement
journal m ms = if is_zero_ℤ m.delta then ms else m ∷ ms

abbrev pub record_movement : StockMovement → Action Session (Unit {0})
record_movement m = write (λ d. record d { movements = journal m d.movements })

abbrev pub maybe_reset_low_stock_flag : Variant → Variant
maybe_reset_low_stock_flag v =
    if ltb_ℤ v.low_stock_threshold (available v)
    then record v { low_stock_notified_at = none }
    else v

abbrev pub require_positive_qty : ℤ → Action Session (Unit {0})
require_positive_qty qty = raise_if (leb_ℤ qty (pos 0)) (inventory_error bad_request)

-- `_finalize`: what is not committed is flushed, which leaves it in the transaction
abbrev pub finalize : {A : Type 0} → A → Bool → Action Session A
finalize obj true = commit_all >> pure obj
finalize obj false = pure obj
