-- ===== src/Inventory/Effect.antt =====
-- What an operation on stock may do to the database: the contract of the service, which says
-- nothing of how an operation checks its arguments. `held` is stock set aside, `away` is stock on
-- its way to a customer.
use skladbase.Prelude.{ℕ, suc, ◌≡◌, some, List, ◌∷◌}
use skladbase.Prelude.Int.{ℤ, pos, ◌+ℤ◌, ◌≤ℤ◌}
use skladbase.Prelude.Tables.{select_one, save}
use skladbase.Models.{Variant, Reservation, ReservationStatus, StockMovement, MovementType, Db}
use skladbase.Inventory.Tables.{owns_variant, owns_reservation}

abbrev pub held : ReservationStatus → ℤ → ℤ
held ReservationStatus.active qty = qty
held _ qty = pos 0

abbrev pub away : ReservationStatus → ℤ → ℤ
away ReservationStatus.shipped qty = qty
away _ qty = pos 0

-- The part of the journal that counts goods: in by a restock, out by a sale or a write-off.
abbrev pub goods : MovementType → ℤ → ℤ
goods MovementType.sale delta = delta
goods MovementType.restock delta = delta
goods MovementType.adjustment delta = delta
goods _ delta = pos 0

-- The life of a reservation.
pub data Transition : ReservationStatus → ReservationStatus → Type 0 where
  releases : Transition ReservationStatus.active ReservationStatus.released
  fulfills : Transition ReservationStatus.active ReservationStatus.fulfilled
  ships : Transition ReservationStatus.active ReservationStatus.shipped
  picks_up : Transition ReservationStatus.shipped ReservationStatus.fulfilled
  returns : Transition ReservationStatus.shipped ReservationStatus.released
  relabels : Transition ReservationStatus.shipped ReservationStatus.shipped

-- `new` is `old`, or `old` with one movement of `variant_id` in this shop; `d` goods moved by it.
pub data Journals (shop variant_id : ℕ) (d : ℤ) (old new : List StockMovement) : Type 0 where
  nothing : new ≡ old → d ≡ pos 0 → Journals shop variant_id d old new
  one :
      (m : StockMovement)
      → new ≡ m ∷ old
      → m.shop_id ≡ shop
      → m.variant_id ≡ variant_id
      → goods m.type_of m.delta ≡ d
      → Journals shop variant_id d old new

-- The same variant with other counts.
pub record Recounts (v w : Variant) : Type 0 where
  pub same_id : w.id ≡ v.id
  pub same_shop : w.shop_id ≡ v.shop_id

-- The same reservation one step further in its life.
pub record Advances (r q : Reservation) : Type 0 where
  pub same_id : q.id ≡ r.id
  pub same_shop : q.shop_id ≡ r.shop_id
  pub same_variant : q.variant_id ≡ r.variant_id
  pub same_qty : q.qty ≡ r.qty
  pub step : Transition r.status q.status

pub record Opens (shop next : ℕ) (v w : Variant) (r : Reservation) : Type 0 where
  pub recounts : Recounts v w
  pub numbered : r.id ≡ next
  pub own : r.shop_id ≡ shop
  pub begins : r.status ≡ ReservationStatus.active
  pub positive : pos 1 ≤ℤ r.qty
  pub fits : w.reserved ≤ℤ w.on_hand
  pub sets_aside : w.reserved ≡ v.reserved +ℤ r.qty
  pub keeps : w.on_hand ≡ v.on_hand

-- `d` goods moved: what a reservation no longer holds or carries has gone back or out.
pub record Moves (d : ℤ) (v w : Variant) (r q : Reservation) : Type 0 where
  pub recounts : Recounts v w
  pub advances : Advances r q
  pub frees : w.reserved +ℤ held r.status r.qty ≡ v.reserved +ℤ held q.status q.qty
  pub counts : w.on_hand +ℤ away q.status q.qty ≡ v.on_hand +ℤ away r.status r.qty +ℤ d
  pub no_oversell : (pos 0 ≤ℤ r.qty) → (w.reserved +ℤ v.on_hand ≤ℤ v.reserved +ℤ w.on_hand)

pub record Passes (d : ℤ) (r q : Reservation) : Type 0 where
  pub advances : Advances r q
  pub frees : held r.status r.qty ≡ held q.status q.qty
  pub counts : away q.status q.qty ≡ away r.status r.qty +ℤ d

pub record Stocks (d : ℤ) (v w : Variant) : Type 0 where
  pub recounts : Recounts v w
  pub same_reserved : w.reserved ≡ v.reserved
  pub counts : w.on_hand ≡ v.on_hand +ℤ d
  pub covers : (v.reserved ≤ℤ v.on_hand) → (w.reserved ≤ℤ w.on_hand)

pub data Effect (shop : ℕ) (a b : Db) : Type 0 where
  -- a new reservation
  opened :
      (v w : Variant) (r : Reservation) (ms : List StockMovement)
      → select_one (owns_variant shop r.variant_id) a.variants ≡ some v
      → Opens shop a.next_reservation v w r
      → Journals shop r.variant_id (pos 0) a.movements ms
      → b ≡ record a {
        variants = save Variant.id w a.variants;
        reservations = r ∷ a.reservations;
        movements = ms;
        next_reservation = suc a.next_reservation;
      }
      → Effect shop a b
  -- a reservation goes on, and its variant is recounted
  moved :
      (d : ℤ) (reservation_id : ℕ) (v w : Variant) (r q : Reservation) (ms : List StockMovement)
      → select_one (owns_reservation shop reservation_id) a.reservations ≡ some r
      → select_one (owns_variant shop r.variant_id) a.variants ≡ some v
      → Moves d v w r q
      → Journals shop r.variant_id d a.movements ms
      → b ≡ record a {
        variants = save Variant.id w a.variants;
        reservations = save Reservation.id q a.reservations;
        movements = ms;
      }
      → Effect shop a b
  -- a reservation goes on, and the counts stay
  passed :
      (d : ℤ) (reservation_id : ℕ) (r q : Reservation) (ms : List StockMovement)
      → select_one (owns_reservation shop reservation_id) a.reservations ≡ some r
      → Passes d r q
      → Journals shop r.variant_id d a.movements ms
      → b ≡ record a { reservations = save Reservation.id q a.reservations; movements = ms }
      → Effect shop a b
  -- goods come in or go out with no reservation
  stocked :
      (d : ℤ) (variant_id : ℕ) (v w : Variant) (ms : List StockMovement)
      → select_one (owns_variant shop variant_id) a.variants ≡ some v
      → Stocks d v w
      → Journals shop variant_id d a.movements ms
      → b ≡ record a { variants = save Variant.id w a.variants; movements = ms }
      → Effect shop a b
