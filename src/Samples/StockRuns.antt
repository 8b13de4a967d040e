-- ===== src/Samples/StockRuns.antt =====
-- The theorems on stock, on the tables of the sample shop.
use skladbase.Prelude.{◌≡◌, ◌+◌, ◌↔◌, refl, true, false, none, some, List, [], ◌∷◌, arith}
use skladbase.Prelude.Int.{pos, ◌+ℤ◌, ◌*ℤ◌, ◌≤ℤ◌}
use skladbase.Prelude.Tables.{select_one, find, total}
use skladbase.Models.{Variant, Reservation, ReservationSource, ReservationStatus, Db}
use skladbase.Session.{ok}
use skladbase.Inventory.{reserve, fulfill, owns_variant}
use skladbase.Inventory.Refines.{Ends}
use skladbase.Inventory.Invariant.{Inv}
use skladbase.Inventory.Calls.{
  ships, releases, writes_off, call, call-Ends, opened_on, request, Request, history,
}
use skladbase.Inventory.History.{history-Inv}
use skladbase.Inventory.Lifecycle.{Survives, history-Later, history-final}
use skladbase.Inventory.Isolation.{SameFor, request-SameFor}
use skladbase.Inventory.Accepts.{is_ok, reserve-accepts, fulfill-accepts, fulfilled_db}
use skladbase.Finance.{Period, finance_summary}
use skladbase.Finance.Revenue.{fulfill-earns}
use skladbase.Samples.Shelf.{cup, hold, shelf, at_first, shelf-Inv}

abbrev week : List Request
week =
    record { at = 20; shop = 7; what = ships 1 (some "20450012345678") }
    ∷ record { at = 21; shop = 8; what = releases 2 none none }
    ∷ record { at = 22; shop = 7; what = releases 2 none none }
    ∷ record { at = 23; shop = 7; what = writes_off 1 (pos 9) "damage" none }
    ∷ []

call-Ends_example : Ends 7 true (opened_on shelf) (call 20 7 (ships 1 none) true (opened_on shelf))
call-Ends_example = call-Ends 20 7 (ships 1 none) true (opened_on shelf)

history-Inv_example : Inv at_first (history week shelf)
history-Inv_example = history-Inv at_first week shelf shelf-Inv

history-Later_example : Survives 1 (hold 1 1) (history week shelf).reservations
unfolding find
history-Later_example = history-Later at_first week shelf 1 (hold 1 1) shelf-Inv refl

abbrev gone : Reservation
gone = record (hold 1 1) { status = ReservationStatus.released }

abbrev emptied : Db
emptied = record shelf { variants = record cup { reserved = pos 0 } ∷ []; reservations = gone ∷ [] }

emptied-Inv : Inv at_first emptied
unfolding total ◌+ℤ◌
emptied-Inv = record {
  numbered = (omega arith, tt);
  positive = (omega arith, tt);
  counted = (record { fits = omega arith; set_aside = refl; balanced = refl }, tt);
}

history-final_example :
    (q : Reservation) × (find Reservation.id 1 (history week emptied).reservations ≡ some q)
    × (q.status ≡ ReservationStatus.released)
    × (q.qty ≡ pos 1)
unfolding find
history-final_example = history-final at_first week emptied 1 gone emptied-Inv refl refl

request-SameFor_example : SameFor 7 shelf (request 20 8 (releases 2 none none) shelf)
request-SameFor_example =
    request-SameFor 20 8 7 2 (releases 2 none none) shelf (omega arith) (omega arith, tt)
      shelf-Inv.numbered

reserve-accepts_example :
    (is_ok
        (reserve 20 7 1
          (pos 2)
          ReservationSource.manual
          none
          none
          none
          none
          true
          (opened_on shelf)).0
      ≡ true)
    ↔ ((pos 1 ≤ℤ pos 2)
        × (v : Variant) × (select_one (owns_variant 7 1) shelf.variants ≡ some v)
        × (v.reserved +ℤ pos 2 ≤ℤ v.on_hand))
reserve-accepts_example =
    reserve-accepts 20 7 1 (pos 2) ReservationSource.manual none none none none true
      (opened_on shelf)

fulfill-accepts_example : fulfill 20 7 2 false (opened_on shelf) ≡ (
  ok (record (hold 2 2) { status = ReservationStatus.fulfilled }),
  record (opened_on shelf) { work = fulfilled_db 20 7 (hold 2 2) cup shelf },
)
unfolding select_one
fulfill-accepts_example =
    fulfill-accepts at_first 20 7 2 (opened_on shelf) (hold 2 2) cup shelf-Inv refl refl refl

fulfill-earns_example :
    let old = finance_summary 20 Period.week 7 shelf.movements in
    let new =
      finance_summary 20 Period.week 7 (fulfill 20 7 2 false (opened_on shelf)).1.work.movements in
    (new.revenue_uah ≡ old.revenue_uah +ℤ (hold 2 2).qty *ℤ cup.price)
    × (new.sales_count ≡ old.sales_count + 1)
    × (new.units_sold ≡ old.units_sold +ℤ (hold 2 2).qty)
    × (new.returns_uah ≡ old.returns_uah)
unfolding select_one
fulfill-earns_example =
    fulfill-earns at_first 20 7 2 Period.week (opened_on shelf) (hold 2 2) cup shelf-Inv refl refl
      refl
