-- ===== src/Samples/OrderRuns.antt =====
-- The theorems on orders, on the tables of the sample shop.
use skladbase.Prelude.{◌≡◌, refl, true, false, none, some, [], ◌∷◌, map, if◌then◌else◌}
use skladbase.Prelude.Int.{pos, ◌+ℤ◌, ◌*ℤ◌, ◌-ℤ◌}
use skladbase.Prelude.Tables.{select_one, save}
use skladbase.Models.{Order, OrderStatus}
use skladbase.Session.{Session, ok}
use skladbase.Inventory.{reserve}
use skladbase.Inventory.Calls.{opened_on}
use skladbase.Orders.{
  is_empty, OrderInput, new_order, create_website_order, confirm_order, cancel_order, place,
  insert_order, undo, active_reservations, add_items, holds_for,
}
use skladbase.Orders.Atomic.{
  Atomic, create_website_order-Atomic, confirm_order-Atomic, cancel_order-Atomic,
}
use skladbase.Orders.Idempotency.{create-again}
use skladbase.Orders.Completion.{sold, confirm_order-completes}
use skladbase.Samples.Shelf.{web_order, shelf, at_first, shelf-Inv}

abbrev basket : OrderInput
basket = record {
  items = record { variant_id = 1; qty = pos 1 } ∷ [];
  idempotency_key = "k5";
  customer_name = none;
  customer_contact = none;
}

create_website_order-Atomic_example :
    Atomic at_first shelf (create_website_order 20 7 basket (some shelf) (opened_on shelf))
create_website_order-Atomic_example =
    create_website_order-Atomic at_first shelf 20 7 basket (some shelf) shelf-Inv shelf-Inv

confirm_order-Atomic_example : Atomic at_first shelf (confirm_order 20 7 4 (opened_on shelf))
confirm_order-Atomic_example = confirm_order-Atomic at_first shelf 20 7 4 shelf-Inv

cancel_order-Atomic_example : Atomic at_first shelf (cancel_order 20 7 4 (opened_on shelf))
cancel_order-Atomic_example = cancel_order-Atomic at_first shelf 20 7 4 shelf-Inv

abbrev placed : Session
placed = (create_website_order 20 7 basket none (opened_on shelf)).1

abbrev bought : Order
bought = record (new_order 20 7 basket 5) { total_price = pos 2500 }

placed-bought :
    create_website_order 20 7 basket none (opened_on shelf) ≡ (ok (bought, true), placed)
unfolding create_website_order insert_order place undo add_items reserve select_one save ◌+ℤ◌ ◌*ℤ◌
    ◌-ℤ◌ is_empty
placed-bought = refl

create-again_example :
    create_website_order 30 7 basket (some shelf) (opened_on placed.committed)
    ≡ (ok (bought, false), opened_on placed.committed)
unfolding is_empty
create-again_example =
    create-again 20 30 7 basket basket (some shelf) shelf bought placed placed-bought refl refl

confirm_order-completes_example :
    (t : Session) × (confirm_order 20 7 4 (opened_on shelf)
      ≡ (ok (record web_order { status = OrderStatus.fulfilled }), t))
    × (t.committed.orders
        ≡ save Order.id (record web_order { status = OrderStatus.fulfilled }) shelf.orders)
    × (t.committed.reservations
        ≡ map (λ r. if holds_for 7 4 r then sold r else r) shelf.reservations)
    × (active_reservations 7 4 t.committed ≡ [])
    × (t.work ≡ t.committed)
unfolding select_one
confirm_order-completes_example =
    confirm_order-completes at_first 20 7 4 shelf web_order shelf-Inv refl refl (refl, (refl, tt))
