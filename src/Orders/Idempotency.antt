-- ===== src/Orders/Idempotency.antt =====
-- A second request with the key of an order that was placed returns that order.
use text.Mathlib.TextPositions.{eq_refl}
use skladbase.Prelude.{
  ℕ, ◌≡◌, refl, sym, ◌∙◌, inl, inr, Bool, true, false, Option, none, some, List, ◌∷◌, [], arith,
  Option-cases, ◌==◌, ◌&&◌, String, is_text, subst, suc,
}
use skladbase.Prelude.Int.{ℤ, pos, ◌+ℤ◌, ◌*ℤ◌}
use skladbase.Prelude.Tables.{select_one, save}
use skladbase.Models.{Order, OrderItem, Db, ReservationSource, inventory_error, order_error}
use skladbase.Session.{Session, Result, ok, err, Action, ◌>>=◌}
use skladbase.Inventory.{owns_variant, reserve}
use skladbase.Inventory.Effect.{Effect, opened, moved, passed, stocked}
use skladbase.Inventory.Refines.{Ends, reserve-Ends}
use skladbase.Inventory.Calls.{opened_on}
use skladbase.Orders.{
  OrderInput, OrderItemInput, add_items, undo, or_undo, book, place, new_order, insert_order,
  create_website_order, find_by_idempotency_key, is_empty,
}

Effect-orders : (shop : ℕ) (a b : Db) → Effect shop a b → b.orders ≡ a.orders
Effect-orders shop a b (opened v w r ms ev o js e) = rw e refl
Effect-orders shop a b (moved d id v w r q ms er ev mv js e) = rw e refl
Effect-orders shop a b (passed d id r q ms er pa js e) = rw e refl
Effect-orders shop a b (stocked d k v w ms ev st js e) = rw e refl

Ends-orders :
    {A : Type 0} (shop : ℕ) (commit : Bool) (s : Session) (out : Result A × Session)
    → Ends shop commit s out
    → out.1.work.orders ≡ s.work.orders
Ends-orders shop commit s (ok a, t) h = Effect-orders shop s.work t.work h.0
Ends-orders shop commit s (err e, t) h = rw h refl

keeps-after :
    {A B : Type 0} (os : List Order) (out : Result A × Session) (f : A → Action Session B)
    → out.1.work.orders ≡ os
    → ((a : A) (t : Session) → t.work.orders ≡ os → (f a t).1.work.orders ≡ os)
    → (((λ _. out) >>= f) out.1).1.work.orders ≡ os
keeps-after os (ok a, t) f h k = k a t h
keeps-after os (err e, t) f h k = h

-- Reserving the items writes no order.
add_items-orders :
    (now shop order : ℕ) (items : List OrderItemInput) (total : ℤ) (s : Session)
    → (add_items now shop order items total s).1.work.orders ≡ s.work.orders
unfolding add_items
add_items-orders now shop order [] total s = refl
add_items-orders now shop order (item ∷ items) total s =
    elim (Option-cases (select_one (owns_variant shop item.variant_id) s.work.variants)) [
      | inl missing ↦ rw missing refl
      | inr (v, ev) ↦
          let row : OrderItem = record {
            order_id = order;
            variant_id = v.id;
            qty = item.qty;
            price_at_order = v.price;
          } in
          let s' : Session = record s {
            work = record s.work { order_items = row ∷ s.work.order_items };
          } in
          rw ev (
            keeps-after s.work.orders
              (reserve now shop v.id item.qty ReservationSource.website none none none (some order)
                false s')
              (λ r. add_items now shop order items (total +ℤ v.price *ℤ item.qty))
              (Ends-orders shop false s' _ (
                reserve-Ends now shop v.id item.qty ReservationSource.website none none none
                  (some order) false s'))
              (λ a t h. add_items-orders now shop order items (total +ℤ v.price *ℤ item.qty) t ∙ h))
    ]

-- What is committed when an order has been placed.
abbrev Placed : ℕ → OrderInput → ℕ → List Order → Result (Order × Bool) × Session → Type 0
Placed shop payload id os (err e, t) = Unit {0}
Placed shop payload id os (ok (o, created), t) =
    (o.id ≡ id)
    × (o.shop_id ≡ shop)
    × (o.idempotency_key ≡ some payload.idempotency_key)
    × (t.committed.orders ≡ save Order.id o os)

Placed-after :
    (now shop : ℕ) (payload : OrderInput) (id : ℕ) (os : List Order) (out : Result ℤ × Session)
    → out.1.work.orders ≡ os
    → Placed shop payload id os ((or_undo (λ _. out) >>= book now shop payload id) out.1)
unfolding undo
Placed-after now shop payload id os (ok total, t) h = (refl, refl, refl, rw h refl)
Placed-after now shop payload id os (err (inventory_error c), t) h = tt
Placed-after now shop payload id os (err (order_error c), t) h = tt
Placed-after now shop payload id os (err _, t) h = tt

place-Placed :
    (now shop : ℕ) (payload : OrderInput) (id : ℕ) (s : Session)
    → Placed shop payload id s.work.orders (place now shop payload id s)
unfolding place
place-Placed now shop payload id s =
    Placed-after now shop payload id s.work.orders (add_items now shop id payload.items (pos 0) s)
      (add_items-orders now shop id payload.items (pos 0) s)

is_text-some : (o : Option String) (key : String) → o ≡ some key → is_text o key ≡ true
is_text-some o key e = rw e (eq_refl key)

-- The look-up by the key finds the newest order of the table if it has that key.
find_newest :
    (shop : ℕ) (key : String) (o n : Order) (os : List Order) (d : Db)
    → o.shop_id ≡ shop
    → o.idempotency_key ≡ some key
    → o.id ≡ n.id
    → d.orders ≡ save Order.id o (n ∷ os)
    → find_by_idempotency_key shop key d ≡ some o
unfolding select_one save
find_newest shop key o n os d own keyed same e =
    let hit : (n.id == o.id) ≡ true = ground arith in
    let shown : (o.shop_id == shop && is_text o.idempotency_key key) ≡ true =
      ground (arith, is_text-some o.idempotency_key key keyed) in
    rw (e, hit, shown) refl

Placed-found :
    (shop : ℕ) (payload : OrderInput) (n : Order) (os : List Order)
    (out : Result (Order × Bool) × Session) (o : Order) (t : Session)
    → Placed shop payload n.id (n ∷ os) out
    → out ≡ (ok (o, true), t)
    → find_by_idempotency_key shop payload.idempotency_key t.committed ≡ some o
Placed-found shop payload n os out o t p e =
    let (same, own, keyed, rows) = subst (Placed shop payload n.id (n ∷ os)) e p in
    find_newest shop payload.idempotency_key o n os t.committed own keyed same rows

-- After an order has been placed, the look-up by its key finds it.
created-found :
    (now shop : ℕ) (payload : OrderInput) (d : Db) (o : Order) (t : Session)
    → create_website_order now shop payload none (opened_on d) ≡ (ok (o, true), t)
    → find_by_idempotency_key shop payload.idempotency_key t.committed ≡ some o
unfolding create_website_order insert_order
created-found now shop payload d o t h =
    elim (Option-cases (find_by_idempotency_key shop payload.idempotency_key d)) [
      | inr (x, known) ↦ absurd (ground arith)
      | inl new ↦
          let s0 : Session = record {
            committed = d;
            work = record d {
              orders = new_order now shop payload d.next_order ∷ d.orders;
              next_order = suc d.next_order;
            };
          } in
          Placed-found shop payload (new_order now shop payload d.next_order) d.orders
            (place now shop payload d.next_order s0) o t
            (place-Placed now shop payload d.next_order s0) (ground arith)
    ]

-- Once an order has been placed, every later request of that shop with the same key and at least
-- one item, whatever items, names or rival it comes with, returns that very order as not newly
-- created, and writes nothing.
pub create-again :
    (now later shop : ℕ) (payload again : OrderInput) (rival : Option Db) (d : Db) (o : Order)
    (t : Session)
    → create_website_order now shop payload none (opened_on d) ≡ (ok (o, true), t)
    → again.idempotency_key ≡ payload.idempotency_key
    → is_empty again.items ≡ false
    → create_website_order later shop again rival (opened_on t.committed)
      ≡ (ok (o, false), opened_on t.committed)
unfolding create_website_order
create-again now later shop payload again rival d o t h same some_items =
    let known = created-found now shop payload d o t h in
    let known' : find_by_idempotency_key shop again.idempotency_key t.committed ≡ some o =
      subst (λ k. find_by_idempotency_key shop k t.committed ≡ some o) (sym same) known in
    rw (some_items, known') refl
