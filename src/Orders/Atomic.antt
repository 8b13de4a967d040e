-- ===== src/Orders/Atomic.antt =====
-- An order is placed, confirmed or cancelled whole or not at all, and stock stays sound.
use skladbase.Prelude.{
  ℕ, suc, ◌≡◌, refl, inl, inr, Bool, true, false, Option, none, some, ◌∷◌, Bool-cases, is_some, not,
}
use skladbase.Prelude.Int.{ℤ, pos}
use skladbase.Prelude.Tables.{select_one, save}
use skladbase.Models.{
  Error, inventory_error, order_error, not_found, conflict, bad_request, Order, OrderStatus, Db,
  is_pending,
}
use skladbase.Session.{Session, Result, ok, err, Action, ◌>>=◌, ◌>>◌, or_raise, raise_if}
use skladbase.Inventory.Invariant.{Inv}
use skladbase.Inventory.Calls.{opened_on}
use skladbase.Orders.{
  OrderInput, add_items, undo, or_undo, undo_inventory, or_undo_inventory, new_order, place,
  insert_order, create_website_order, replay, find_by_idempotency_key, confirm_order, cancel_order,
  book, settle, create_or_replay, create_looked_up, confirm_found, confirm_pending, cancel_found,
  cancel_pending, owns_order, active_reservations, fulfill_all, release_all, is_empty,
}
use skladbase.Orders.Steps.{
  is_caught, is_inventory_error, Safe, Inv-orders, add_items-Safe, fulfill_all-Safe,
  release_all-Safe,
}

-- A raise leaves the session on the database `d` with nothing written. A return has committed all
-- that it wrote, and the invariant of stock holds.
abbrev pub Atomic : {A : Type 0} → (ℕ → ℤ) → Db → Result A × Session → Type 0
Atomic base d (err e, t) = t ≡ opened_on d
Atomic base d (ok a, t) = Inv base t.committed × (t.work ≡ t.committed)

module _ (base : ℕ → ℤ) (d : Db) where
  -- A `try` around safe steps, and what comes after it.
  undo-then :
      {A B : Type 0} (out : Result A × Session) (f : A → Action Session B)
      → Safe base d is_caught out
      → ((a : A) (t : Session) → Inv base t.work → t.committed ≡ d → Atomic base d (f a t))
      → Atomic base d ((or_undo (λ _. out) >>= f) out.1)
  unfolding undo
  undo-then (ok a, t) f h k = k a t h.0 h.1
  undo-then (err (inventory_error c), t) f h k = rw h.1 refl
  undo-then (err (order_error c), t) f h k = rw h.1 refl
  undo-then (err _, t) f h k = cc

  undo_inventory-then :
      {A B : Type 0} (out : Result A × Session) (f : A → Action Session B)
      → Safe base d is_inventory_error out
      → ((a : A) (t : Session) → Inv base t.work → t.committed ≡ d → Atomic base d (f a t))
      → Atomic base d ((or_undo_inventory (λ _. out) >>= f) out.1)
  unfolding undo_inventory
  undo_inventory-then (ok a, t) f h k = k a t h.0 h.1
  undo_inventory-then (err (inventory_error c), t) f h k = rw h.1 refl
  undo_inventory-then (err _, t) f h k = cc

  or_raise-then :
      {A B : Type 0} (o : Option A) (e : Error) (f : A → Action Session B)
      → ((a : A) → o ≡ some a → Atomic base d (f a (opened_on d)))
      → Atomic base d ((or_raise o e >>= f) (opened_on d))
  or_raise-then none e f h = refl
  or_raise-then (some a) e f h = h a refl

  raise_if-then :
      {B : Type 0} (c : Bool) (e : Error) (k : Action Session B)
      → (c ≡ false → Atomic base d (k (opened_on d)))
      → Atomic base d ((raise_if c e >> k) (opened_on d))
  raise_if-then true e k h = refl
  raise_if-then false e k h = h refl

  book-Atomic :
      (now shop : ℕ) (payload : OrderInput) (id : ℕ) (total : ℤ) (t : Session)
      → Inv base t.work
      → Atomic base d (book now shop payload id total t)
  book-Atomic now shop payload id total t inv = (
    Inv-orders base t.work
        (save Order.id (record (new_order now shop payload id) { total_price = total })
          t.work.orders)
        t.work.order_items t.work.next_order inv,
    refl,
  )

  settle-Atomic :
      (o : Order) (status : OrderStatus) (t : Session)
      → Inv base t.work
      → Atomic base d (settle o status t)
  settle-Atomic o status t inv = (
    Inv-orders base t.work (save Order.id (record o { status = status }) t.work.orders)
        t.work.order_items t.work.next_order inv,
    refl,
  )

  place-Atomic :
      (now shop : ℕ) (payload : OrderInput) (id : ℕ) (s : Session)
      → Inv base s.work
      → s.committed ≡ d
      → Atomic base d (place now shop payload id s)
  unfolding place
  place-Atomic now shop payload id s inv e =
      undo-then (add_items now shop id payload.items (pos 0) s) (book now shop payload id)
        (add_items-Safe base d now shop id payload.items (pos 0) s inv e)
        (λ total t inv' e'. book-Atomic now shop payload id total t inv')

  replay-Atomic :
      (existing : Option Order) → Inv base d → Atomic base d (replay existing (opened_on d))
  replay-Atomic none inv = refl
  replay-Atomic (some o) inv = (inv, refl)

  -- Confirming an order of a sound database is all or nothing: a raise has written nothing; a return
  -- has committed, and stock is sound.
  pub confirm_order-Atomic :
      (now shop id : ℕ) → Inv base d → Atomic base d (confirm_order now shop id (opened_on d))
  unfolding confirm_order
  confirm_order-Atomic now shop id inv =
      or_raise-then (select_one (owns_order shop id) d.orders) (order_error not_found)
        (confirm_found now shop id)
        λ o e.
          raise_if-then (not (is_pending o.status)) (order_error conflict)
            (confirm_pending now shop id o)
            λ p.
              undo_inventory-then
                (fulfill_all now shop (active_reservations shop id d) (opened_on d))
                (λ done. settle o OrderStatus.fulfilled)
                (fulfill_all-Safe base d now shop (active_reservations shop id d) (opened_on d) inv
                  refl)
                (λ done t inv' e'. settle-Atomic o OrderStatus.fulfilled t inv')

  -- Cancelling an order of a sound database is all or nothing: a raise has written nothing; a return
  -- has committed, and stock is sound.
  pub cancel_order-Atomic :
      (now shop id : ℕ) → Inv base d → Atomic base d (cancel_order now shop id (opened_on d))
  unfolding cancel_order
  cancel_order-Atomic now shop id inv =
      or_raise-then (select_one (owns_order shop id) d.orders) (order_error not_found)
        (cancel_found now shop id)
        λ o e.
          raise_if-then (not (is_pending o.status)) (order_error conflict)
            (cancel_pending now shop id o)
            λ p.
              undo_inventory-then
                (release_all now shop (active_reservations shop id d) (opened_on d))
                (λ done. settle o OrderStatus.canceled)
                (release_all-Safe base d now shop (active_reservations shop id d) (opened_on d) inv
                  refl)
                (λ done t inv' e'. settle-Atomic o OrderStatus.canceled t inv')

  -- The invariant of the rows that a rival has committed.
  abbrev pub RivalInv : Option Db → Type 0
  RivalInv none = Unit {0}
  RivalInv (some r) = Inv base r

replay-found :
    (base : ℕ → ℤ) (d r : Db) (o : Option Order)
    → Inv base r
    → is_some o ≡ true
    → Atomic base d (replay o (opened_on r))
replay-found base d r none inv e = cc
replay-found base d r (some o) inv e = (inv, refl)

insert_order-Atomic :
    (base : ℕ → ℤ) (d : Db) (now shop : ℕ) (payload : OrderInput) (rival : Option Db)
    → Inv base d
    → RivalInv base d rival
    → Atomic base d (insert_order now shop payload rival (opened_on d))
unfolding insert_order
insert_order-Atomic base d now shop payload none inv r =
    place-Atomic base d now shop payload d.next_order _
      (Inv-orders base d (new_order now shop payload d.next_order ∷ d.orders) d.order_items
        (suc d.next_order) inv)
      refl
insert_order-Atomic base d now shop payload (some r) inv ir =
    elim (Bool-cases (is_some (find_by_idempotency_key shop payload.idempotency_key r))) [
      | inl met ↦
          rw (Atomic, met)
            (replay-found base d r (find_by_idempotency_key shop payload.idempotency_key r) ir met)
      | inr free ↦
          rw (Atomic, free)
            (place-Atomic base d now shop payload d.next_order _
              (Inv-orders base d (new_order now shop payload d.next_order ∷ d.orders) d.order_items
                (suc d.next_order) inv)
              refl)
    ]

create_or_replay-Atomic :
    (base : ℕ → ℤ) (d : Db) (now shop : ℕ) (payload : OrderInput) (rival : Option Db)
    (existing : Option Order)
    → Inv base d
    → RivalInv base d rival
    → Atomic base d (create_or_replay now shop payload rival existing (opened_on d))
create_or_replay-Atomic base d now shop payload rival none inv r =
    insert_order-Atomic base d now shop payload rival inv r
create_or_replay-Atomic base d now shop payload rival (some o) inv r = (inv, refl)

-- Placing an order is all or nothing, also where another transaction commits an order with the same
-- key in between: a raise has written nothing, not even a reservation of an earlier item; a return
-- has committed, and stock is sound.
pub create_website_order-Atomic :
    (base : ℕ → ℤ) (d : Db) (now shop : ℕ) (payload : OrderInput) (rival : Option Db)
    → Inv base d
    → RivalInv base d rival
    → Atomic base d (create_website_order now shop payload rival (opened_on d))
unfolding create_website_order
create_website_order-Atomic base d now shop payload rival inv r =
    raise_if-then base d (is_empty payload.items) (order_error bad_request)
      (create_looked_up now shop payload rival)
      λ e.
        create_or_replay-Atomic base d now shop payload rival
          (find_by_idempotency_key shop payload.idempotency_key d) inv r
