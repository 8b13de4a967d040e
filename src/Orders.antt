-- ===== src/Orders.antt =====
-- app/services/orders.py: orders of the shop's web site, their confirmation and their cancelling.
-- The message to the site after a commit (`_notify_stock_changed`) reads rows and swallows its own
-- errors; it leaves no trace in the database, and is left out.
pub mod Steps
pub mod Atomic
pub mod Idempotency
pub mod Completion
use skladbase.Prelude.{
  ℕ, suc, String, Bool, true, false, ◌&&◌, not, Option, none, some, List, [], ◌∷◌, ◌==◌,
  if◌then◌else◌, is_at, is_text, is_some, keep,
}
use skladbase.Prelude.Int.{ℤ, pos, ◌+ℤ◌, ◌*ℤ◌}
use skladbase.Prelude.Tables.{select_one, save}
use skladbase.Models.{
  bad_request, not_found, conflict, Error, inventory_error, order_error, integrity_error, Variant,
  Reservation, ReservationSource, Order, OrderItem, OrderSource, OrderStatus, Db, is_active,
  is_pending,
}
use skladbase.Session.{
  Session, Result, ok, err, Action, pure, raise, or_raise, ◌>>=◌, ◌>>◌, raise_if, write, query,
  commit_all, rollback,
}
use skladbase.Inventory.{owns_variant, reserve, release, fulfill}

pub record OrderItemInput : Type 0 where
  pub variant_id : ℕ
  pub qty : ℤ

pub record OrderInput : Type 0 where
  pub items : List OrderItemInput
  pub idempotency_key : String
  pub customer_name : Option String
  pub customer_contact : Option String

abbrev pub find_by_idempotency_key : ℕ → String → Db → Option Order
find_by_idempotency_key shop_id key d =
    select_one (λ o. o.shop_id == shop_id && is_text o.idempotency_key key) d.orders

abbrev pub owns_order : ℕ → ℕ → Order → Bool
owns_order shop_id order_id o = o.id == order_id && o.shop_id == shop_id

abbrev pub get_owned_order : ℕ → ℕ → Action Session Order
get_owned_order shop_id order_id = do
  found ← query (λ d. select_one (owns_order shop_id order_id) d.orders)
  or_raise found (order_error not_found)

abbrev pub holds_for : ℕ → ℕ → Reservation → Bool
holds_for shop_id order_id r =
    r.shop_id == shop_id && is_at r.order_id order_id && is_active r.status

abbrev pub active_reservations : ℕ → ℕ → Db → List Reservation
active_reservations shop_id order_id d = keep (holds_for shop_id order_id) d.reservations

abbrev pub new_order : ℕ → ℕ → OrderInput → ℕ → Order
new_order now shop_id payload id = record {
  id = id;
  shop_id = shop_id;
  source = OrderSource.website;
  status = OrderStatus.pending;
  external_ref = none;
  idempotency_key = some payload.idempotency_key;
  customer_name = payload.customer_name;
  customer_contact = payload.customer_contact;
  total_price = pos 0;
  created_at = now;
}

abbrev pub add_order : Order → Action Session (Unit {0})
add_order o = write (λ d. record d { orders = o ∷ d.orders; next_order = suc d.next_order })

abbrev pub set_order : Order → Action Session (Unit {0})
set_order o = write (λ d. record d { orders = save Order.id o d.orders })

abbrev pub add_item : OrderItem → Action Session (Unit {0})
add_item i = write (λ d. record d { order_items = i ∷ d.order_items })

-- The loop over the items: each is written and reserved, and the prices add up.
unfoldable pub add_items : ℕ → ℕ → ℕ → List OrderItemInput → ℤ → Action Session ℤ
add_items now shop_id order_id [] total = pure total
add_items now shop_id order_id (item ∷ items) total = do
  found ← query (λ d. select_one (owns_variant shop_id item.variant_id) d.variants)
  variant ← or_raise found (order_error not_found)
  add_item (record {
    order_id = order_id;
    variant_id = variant.id;
    qty = item.qty;
    price_at_order = variant.price;
  })
  reserve now shop_id variant.id item.qty ReservationSource.website none none none (some order_id)
      false
  add_items now shop_id order_id items (total +ℤ variant.price *ℤ item.qty)

-- `except InventoryError … except OrderError …`: the transaction is undone before the raise.
unfoldable pub undo : {A : Type 0} → Error → Action Session A
undo (inventory_error c) = rollback >> raise (order_error c)
undo (order_error c) = rollback >> raise (order_error c)
undo e = raise e

abbrev pub or_undo : {A : Type 0} → Action Session A → Action Session A
or_undo m s = let (r, t) = m s in elim r [ ok a ↦ (ok a, t) | err e ↦ undo e t ]

-- Another transaction that has committed an order with this key since the look-up, with all that
-- it wrote: the flush then meets the unique constraint.
abbrev pub meets : ℕ → String → Option Db → Bool
meets shop_id key none = false
meets shop_id key (some d) = is_some (find_by_idempotency_key shop_id key d)

abbrev pub rollback_to : Option Db → Action Session (Unit {0})
rollback_to none s = (ok tt, record s { work = s.committed })
rollback_to (some d) s = (ok tt, record s { committed = d; work = d })

abbrev pub replay : Option Order → Action Session (Order × Bool)
replay none = raise integrity_error
replay (some existing) = pure (existing, false)

-- `except IntegrityError`
abbrev pub after_conflict : ℕ → String → Option Db → Action Session (Order × Bool)
after_conflict shop_id key rival = do
  rollback_to rival
  existing ← query (find_by_idempotency_key shop_id key)
  replay existing

-- `order.total = total`, and the one commit
abbrev pub book : ℕ → ℕ → OrderInput → ℕ → ℤ → Action Session (Order × Bool)
book now shop_id payload id total = do
  let order = record (new_order now shop_id payload id) { total_price = total }
  set_order order
  commit_all
  pure (order, true)

unfoldable pub place : ℕ → ℕ → OrderInput → ℕ → Action Session (Order × Bool)
unfolding undo
place now shop_id payload id = do
  total ← or_undo (add_items now shop_id id payload.items (pos 0))
  book now shop_id payload id total

unfoldable pub insert_order : ℕ → ℕ → OrderInput → Option Db → Action Session (Order × Bool)
insert_order now shop_id payload rival = do
  id ← query Db.next_order
  add_order (new_order now shop_id payload id)
  if meets shop_id payload.idempotency_key rival
      then after_conflict shop_id payload.idempotency_key rival
      else place now shop_id payload id

unfoldable pub is_empty : List OrderItemInput → Bool
is_empty [] = true
is_empty (_ ∷ _) = false

-- what `create_website_order` does after the look-up by the key
abbrev pub create_or_replay :
    ℕ → ℕ → OrderInput → Option Db → Option Order → Action Session (Order × Bool)
create_or_replay now shop_id payload rival existing =
    if is_some existing then replay existing else insert_order now shop_id payload rival

abbrev pub create_looked_up : ℕ → ℕ → OrderInput → Option Db → Action Session (Order × Bool)
create_looked_up now shop_id payload rival = do
  existing ← query (find_by_idempotency_key shop_id payload.idempotency_key)
  create_or_replay now shop_id payload rival existing

unfoldable pub create_website_order : ℕ → ℕ → OrderInput → Option Db → Action Session (Order × Bool)
create_website_order now shop_id payload rival = do
  raise_if (is_empty payload.items) (order_error bad_request)
  create_looked_up now shop_id payload rival

-- `except InventoryError`
unfoldable pub undo_inventory : {A : Type 0} → Error → Action Session A
undo_inventory (inventory_error c) = rollback >> raise (order_error c)
undo_inventory e = raise e

abbrev pub or_undo_inventory : {A : Type 0} → Action Session A → Action Session A
or_undo_inventory m s = let (r, t) = m s in elim r [ ok a ↦ (ok a, t) | err e ↦ undo_inventory e t ]

unfoldable pub fulfill_all : ℕ → ℕ → List Reservation → Action Session (Unit {0})
fulfill_all now shop_id [] = pure tt
fulfill_all now shop_id (r ∷ rs) = do fulfill now shop_id r.id false; fulfill_all now shop_id rs

unfoldable pub release_all : ℕ → ℕ → List Reservation → Action Session (Unit {0})
release_all now shop_id [] = pure tt
release_all now shop_id (r ∷ rs) = do
  release now shop_id r.id none none false
  release_all now shop_id rs

-- `order.status = …`, and the one commit
abbrev pub settle : Order → OrderStatus → Action Session Order
settle order status = do
  let done = record order { status = status }
  set_order done
  commit_all
  pure done

-- the end of `confirm_order`, for a pending order
abbrev pub confirm_pending : ℕ → ℕ → ℕ → Order → Action Session Order
confirm_pending now shop_id order_id order = do
  reservations ← query (active_reservations shop_id order_id)
  or_undo_inventory (fulfill_all now shop_id reservations)
  settle order OrderStatus.fulfilled

abbrev pub confirm_found : ℕ → ℕ → ℕ → Order → Action Session Order
confirm_found now shop_id order_id order = do
  raise_if (not (is_pending order.status)) (order_error conflict)
  confirm_pending now shop_id order_id order

unfoldable pub confirm_order : ℕ → ℕ → ℕ → Action Session Order
unfolding undo_inventory
confirm_order now shop_id order_id = do
  order ← get_owned_order shop_id order_id
  confirm_found now shop_id order_id order

-- the end of `cancel_order`, for a pending order
abbrev pub cancel_pending : ℕ → ℕ → ℕ → Order → Action Session Order
cancel_pending now shop_id order_id order = do
  reservations ← query (active_reservations shop_id order_id)
  or_undo_inventory (release_all now shop_id reservations)
  settle order OrderStatus.canceled

abbrev pub cancel_found : ℕ → ℕ → ℕ → Order → Action Session Order
cancel_found now shop_id order_id order = do
  raise_if (not (is_pending order.status)) (order_error conflict)
  cancel_pending now shop_id order_id order

unfoldable pub cancel_order : ℕ → ℕ → ℕ → Action Session Order
unfolding undo_inventory
cancel_order now shop_id order_id = do
  order ← get_owned_order shop_id order_id
  cancel_found now shop_id order_id order
