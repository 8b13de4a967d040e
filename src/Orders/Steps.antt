-- ===== src/Orders/Steps.antt =====
-- What the orders rest on: steps that keep the invariant of stock in the transaction, commit
-- nothing, and raise only errors that the callers catch.
use skladbase.Prelude.{
  ℕ, ◌≡◌, refl, inl, inr, Bool, true, false, Option, none, some, List, [], ◌∷◌, arith, Option-cases,
  ◌∙◌,
}
use skladbase.Prelude.Int.{ℤ, ◌+ℤ◌, ◌*ℤ◌}
use skladbase.Prelude.Tables.{select_one}
use skladbase.Models.{
  Error, inventory_error, order_error, Reservation, ReservationSource, Order, OrderItem, Db,
}
use skladbase.Session.{Session, Result, ok, err, Action, ◌>>=◌}
use skladbase.Inventory.{owns_variant, reserve, release, fulfill}
use skladbase.Inventory.Refines.{Ends, reserve-Ends, release-Ends, fulfill-Ends}
use skladbase.Inventory.Invariant.{Inv, Effect-Inv}
use skladbase.Orders.{OrderItemInput, add_items, fulfill_all, release_all}

abbrev pub is_inventory_error : Error → Bool
is_inventory_error (inventory_error c) = true
is_inventory_error _ = false

abbrev pub is_caught : Error → Bool
is_caught (inventory_error c) = true
is_caught (order_error c) = true
is_caught _ = false

-- A raise is of a kind that is caught.
abbrev pub RaisesOnly : {A : Type 0} → (Error → Bool) → Result A → Type 0
RaisesOnly p (ok a) = Unit {0}
RaisesOnly p (err e) = p e ≡ true

-- The books of stock do not mention orders.
pub Inv-orders :
    (base : ℕ → ℤ) (d : Db) (os : List Order) (is : List OrderItem) (n : ℕ)
    → Inv base d
    → Inv base (record d { orders = os; order_items = is; next_order = n })
Inv-orders base d os is n inv = record {
  numbered = inv.numbered;
  positive = inv.positive;
  counted = inv.counted;
}

RaisesOnly-of :
    {A : Type 0} (p : Error → Bool) (r : Result A)
    → ((e : Error) → r ≡ err e → p e ≡ true)
    → RaisesOnly p r
RaisesOnly-of p (ok a) h = tt
RaisesOnly-of p (err e) h = h e refl

caught : {A : Type 0} (r : Result A) → RaisesOnly is_inventory_error r → RaisesOnly is_caught r
caught (ok a) h = tt
caught (err (inventory_error c)) h = refl
caught (err _) h = cc

module _ (base : ℕ → ℤ) (c : Db) (p : Error → Bool) where
  abbrev pub Safe : {A : Type 0} → Result A × Session → Type 0
  Safe (r, t) = Inv base t.work × (t.committed ≡ c) × RaisesOnly p r

  Safe-after :
      {A B : Type 0} (out : Result A × Session) (f : A → Action Session B)
      → Safe out
      → ((a : A) (t : Session) → Inv base t.work → t.committed ≡ c → Safe (f a t))
      → Safe (((λ _. out) >>= f) out.1)
  Safe-after (ok a, t) f h k = k a t h.0 h.1
  Safe-after (err e, t) f h k = h

  Safe-Ends :
      {A : Type 0} (shop : ℕ) (s : Session) (out : Result A × Session)
      → Inv base s.work
      → s.committed ≡ c
      → RaisesOnly p out.0
      → Ends shop false s out
      → Safe out
  Safe-Ends shop s (ok a, t) inv e r ends =
      (Effect-Inv base shop s.work t.work inv ends.0, ends.1 ∙ e, tt)
  Safe-Ends shop s (err x, t) inv e r ends = (rw ends inv, rw ends e, r)

reserve-RaisesOnly :
    (now shop k : ℕ) (qty : ℤ) (source : ReservationSource) (order : Option ℕ) (s : Session)
    → RaisesOnly is_inventory_error (reserve now shop k qty source none none none order false s).0
unfolding reserve
reserve-RaisesOnly now shop k qty source order s = RaisesOnly-of _ _ λ e h. ground arith

fulfill-RaisesOnly :
    (now shop k : ℕ) (s : Session) → RaisesOnly is_inventory_error (fulfill now shop k false s).0
unfolding fulfill
fulfill-RaisesOnly now shop k s = RaisesOnly-of _ _ λ e h. ground arith

release-RaisesOnly :
    (now shop k : ℕ) (s : Session)
    → RaisesOnly is_inventory_error (release now shop k none none false s).0
unfolding release
release-RaisesOnly now shop k s = RaisesOnly-of _ _ λ e h. ground arith

module _ (base : ℕ → ℤ) (c : Db) where
  pub fulfill_all-Safe :
      (now shop : ℕ) (rs : List Reservation) (s : Session)
      → Inv base s.work
      → s.committed ≡ c
      → Safe base c is_inventory_error (fulfill_all now shop rs s)
  unfolding fulfill_all
  fulfill_all-Safe now shop [] s inv e = (inv, e, tt)
  fulfill_all-Safe now shop (r ∷ rs) s inv e =
      Safe-after base c is_inventory_error (fulfill now shop r.id false s) _
        (Safe-Ends base c is_inventory_error shop s _ inv e (fulfill-RaisesOnly now shop r.id s)
          (fulfill-Ends now shop r.id false s))
        (λ a t. fulfill_all-Safe now shop rs t)

  pub release_all-Safe :
      (now shop : ℕ) (rs : List Reservation) (s : Session)
      → Inv base s.work
      → s.committed ≡ c
      → Safe base c is_inventory_error (release_all now shop rs s)
  unfolding release_all
  release_all-Safe now shop [] s inv e = (inv, e, tt)
  release_all-Safe now shop (r ∷ rs) s inv e =
      Safe-after base c is_inventory_error (release now shop r.id none none false s) _
        (Safe-Ends base c is_inventory_error shop s _ inv e (release-RaisesOnly now shop r.id s)
          (release-Ends now shop r.id none none false s))
        (λ a t. release_all-Safe now shop rs t)

  pub add_items-Safe :
      (now shop order : ℕ) (items : List OrderItemInput) (total : ℤ) (s : Session)
      → Inv base s.work
      → s.committed ≡ c
      → Safe base c is_caught (add_items now shop order items total s)
  unfolding add_items
  add_items-Safe now shop order [] total s inv e = (inv, e, tt)
  add_items-Safe now shop order (item ∷ items) total s inv e =
      elim (Option-cases (select_one (owns_variant shop item.variant_id) s.work.variants)) [
        | inl missing ↦ rw missing (inv, e, refl)
        | inr (v, ev) ↦
            let row : OrderItem = record {
              order_id = order;
              variant_id = v.id;
              qty = item.qty;
              price_at_order = v.price;
            } in
            let s' : Session = record s {
              work = record s.work { order_items = row ∷ s.work.order_items };
            } in
            let reserved =
              reserve now shop v.id item.qty ReservationSource.website none none none (some order)
                false s' in
            rw ev (
              Safe-after base c is_caught reserved _
                (Safe-Ends base c is_caught shop s' _
                  (Inv-orders base s.work s.work.orders (row ∷ s.work.order_items) s.work.next_order
                    inv)
                  e
                  (caught _ (
                    reserve-RaisesOnly now shop v.id item.qty ReservationSource.website (some order)
                      s'))
                  (reserve-Ends now shop v.id item.qty ReservationSource.website none none none
                    (some order) false s'))
                (λ a t. add_items-Safe now shop order items (total +ℤ v.price *ℤ item.qty) t))
      ]
