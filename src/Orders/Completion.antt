-- ===== src/Orders/Completion.antt =====
-- The confirmation of a pending order goes through, and settles everything that it held.
use skladbase.Prelude.{
  ℕ, ◌≡◌, refl, ◌∙◌, subst, true, false, some, List, [], ◌∷◌, arith, All, All-imp, is_some, keep,
  ap, map, if◌then◌else◌,
}
use skladbase.Prelude.Updates.{save_each, save_each-map, keep-head, some-of}
use skladbase.Prelude.Int.{ℤ}
use skladbase.Prelude.Tables.{select_one, save}
use skladbase.Prelude.Selections.{select_one-keep, keep-save_head, select_one-save}
use skladbase.Models.{Variant, Reservation, ReservationStatus, Order, OrderStatus, Db, is_pending}
use skladbase.Session.{Session, Result, ok, >>=-ok}
use skladbase.Inventory.{owns_variant, owns_reservation, fulfill}
use skladbase.Inventory.Effect.{Effect}
use skladbase.Inventory.Refines.{Ends, fulfill-Ends, owns_variant_id}
use skladbase.Inventory.Invariant.{Inv, Effect-Inv}
use skladbase.Inventory.Calls.{opened_on}
use skladbase.Inventory.Accepts.{fulfill-accepts, fulfilled_db}
use skladbase.Orders.{confirm_order, owns_order, active_reservations, holds_for, fulfill_all}

-- The variant of the reservation is one of the shop.
abbrev pub HasVariant : ℕ → List Variant → Reservation → Type 0
HasVariant shop vs r = is_some (select_one (owns_variant shop r.variant_id) vs) ≡ true

-- A sale of one reservation keeps the variants of the others.
variants-stay :
    (now shop k : ℕ) (r : Reservation) (v : Variant) (d : Db)
    → select_one (owns_variant shop k) d.variants ≡ some v
    → (q : Reservation) → HasVariant shop d.variants q
    → HasVariant shop (fulfilled_db now shop r v d).variants q
variants-stay now shop k r v d ev q h =
    let own = (owns_variant_id shop k d.variants ev).1 in
    select_one-save Variant.id (owns_variant shop q.variant_id) _ d.variants
      (λ y same hit. ground arith) h

fulfill_all-cons :
    (now shop : ℕ) (r : Reservation) (rs : List Reservation) (s : Session) (q : Reservation)
    (s' : Session) (out : Result (Unit {0}) × Session)
    → fulfill now shop r.id false s ≡ (ok q, s')
    → fulfill_all now shop rs s' ≡ out
    → fulfill_all now shop (r ∷ rs) s ≡ out
unfolding fulfill_all
fulfill_all-cons now shop r rs s q s' out sold rest =
    >>=-ok (fulfill now shop r.id false) (λ _. fulfill_all now shop rs) s sold ∙ rest

abbrev pub sold : Reservation → Reservation
sold r = record r { status = ReservationStatus.fulfilled }

-- Selling all that the order holds succeeds, and nothing is held for it afterwards.
fulfill_all-completes :
    (base : ℕ → ℤ) (now shop id : ℕ) (rs : List Reservation) (s : Session)
    → Inv base s.work
    → keep (holds_for shop id) s.work.reservations ≡ rs
    → All (HasVariant shop s.work.variants) rs
    → (t : Session) × (fulfill_all now shop rs s ≡ (ok tt, t))
      × (active_reservations shop id t.work ≡ [])
      × (t.work.orders ≡ s.work.orders)
      × (t.work.reservations ≡ save_each Reservation.id sold rs s.work.reservations)
unfolding fulfill_all save_each
fulfill_all-completes base now shop id [] s inv e h = (s, refl, e, refl, refl)
fulfill_all-completes base now shop id (r ∷ rs) s inv e h =
    let holds = keep-head (holds_for shop id) s.work.reservations e in
    let er : select_one (owns_reservation shop r.id) s.work.reservations ≡ some r =
      select_one-keep Reservation.id (holds_for shop id) (owns_reservation shop r.id)
        s.work.next_reservation s.work.reservations inv.numbered (ground arith)
        (λ y hit. ground arith) e in
    let (v, ev) = some-of (select_one (owns_variant shop r.variant_id) s.work.variants) h.0 in
    let s' : Session = record s { work = fulfilled_db now shop r v s.work } in
    let sells = fulfill-accepts base now shop r.id s r v inv er ev (ground arith) in
    let effect : Effect shop s.work s'.work =
      (subst (Ends shop false s) sells (fulfill-Ends now shop r.id false s)).0 in
    let q : Reservation = sold r in
    let (t, done, none_left, orders, reservations) =
      fulfill_all-completes base now shop id rs s' (Effect-Inv base shop s.work s'.work inv effect)
        (keep-save_head Reservation.id (holds_for shop id) s.work.next_reservation q
          s.work.reservations inv.numbered refl (ground arith) e)
        (All-imp _ _ rs h.1 (variants-stay now shop r.variant_id r v s.work ev)) in
    (t, fulfill_all-cons now shop r rs s q s' _ sells done, none_left, orders, reservations)

-- In a sound database, a pending order of the shop whose reserved variants are the shop's is
-- confirmed: the call returns it as fulfilled, and what is committed has it as fulfilled among the
-- orders, has each reservation that was active for it as fulfilled and the others as they were, and
-- has none that is still active for it.
pub confirm_order-completes :
    (base : ℕ → ℤ) (now shop id : ℕ) (d : Db) (o : Order)
    → Inv base d
    → select_one (owns_order shop id) d.orders ≡ some o
    → is_pending o.status ≡ true
    → All (HasVariant shop d.variants) (active_reservations shop id d)
    → let done : Order = record o { status = OrderStatus.fulfilled } in
      (t : Session) × (confirm_order now shop id (opened_on d) ≡ (ok done, t))
      × (t.committed.orders ≡ save Order.id done d.orders)
      × (t.committed.reservations
          ≡ map (λ r. if holds_for shop id r then sold r else r) d.reservations)
      × (active_reservations shop id t.committed ≡ [])
      × (t.work ≡ t.committed)
unfolding confirm_order
confirm_order-completes base now shop id d o inv eo pending h =
    let (t, done, none_left, orders, reservations) =
      fulfill_all-completes base now shop id (active_reservations shop id d) (opened_on d) inv refl
        h in
    let fulfilled : Order = record o { status = OrderStatus.fulfilled } in
    let closed : Db = record t.work { orders = save Order.id fulfilled t.work.orders } in
    (
      record { committed = closed; work = closed },
      ground (arith, done),
      ap (save Order.id fulfilled) orders,
      reservations
          ∙ save_each-map Reservation.id sold (holds_for shop id) d.next_reservation d.reservations
              (λ r. refl) inv.numbered,
      none_left,
      refl,
    )
