-- ===== src/Samples/Shelf.antt =====
-- A shop with one variant, of which two reservations of one order hold three, and a shop with none.
use skladbase.Prelude.{ℕ, refl, none, some, [], ◌∷◌, arith}
use skladbase.Prelude.Int.{ℤ, pos, ◌+ℤ◌}
use skladbase.Prelude.Tables.{total}
use skladbase.Models.{
  Variant, Reservation, ReservationSource, ReservationStatus, Order, OrderSource, OrderStatus, Db,
}
use skladbase.Inventory.Invariant.{Inv}

abbrev pub cup : Variant
cup = record {
  id = 1;
  shop_id = 7;
  product_id = 1;
  sku = none;
  axis_values = [];
  photo_url = none;
  price = pos 2500;
  on_hand = pos 5;
  reserved = pos 3;
  low_stock_threshold = pos 2;
  low_stock_notified_at = none;
  expires_on = none;
}

abbrev pub hold : ℕ → ℕ → Reservation
hold id qty = record {
  id = id;
  shop_id = 7;
  variant_id = 1;
  order_id = some 4;
  qty = pos qty;
  reason = none;
  customer_note = none;
  source = ReservationSource.website;
  status = ReservationStatus.active;
  expires_at = some 50;
  created_at = 10;
  released_at = none;
  ttn = none;
  shipped_at = none;
  np_status = none;
  np_recipient = none;
}

abbrev pub web_order : Order
web_order = record {
  id = 4;
  shop_id = 7;
  source = OrderSource.website;
  status = OrderStatus.pending;
  external_ref = none;
  idempotency_key = some "k4";
  customer_name = none;
  customer_contact = none;
  total_price = pos 7500;
  created_at = 10;
}

abbrev pub shelf : Db
shelf = record {
  variants = cup ∷ [];
  reservations = hold 2 2 ∷ hold 1 1 ∷ [];
  movements = [];
  orders = web_order ∷ [];
  order_items = [];
  next_reservation = 3;
  next_order = 5;
}

abbrev pub at_first : ℕ → ℤ
at_first k = pos 5

pub shelf-Inv : Inv at_first shelf
unfolding total ◌+ℤ◌
shelf-Inv = record {
  numbered = (omega arith, (omega arith, tt));
  positive = (omega arith, (omega arith, tt));
  counted = (record { fits = omega arith; set_aside = refl; balanced = refl }, tt);
}
