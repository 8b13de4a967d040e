-- ===== src/Tasks/Reservations.antt =====
-- app/tasks.py: the jobs on stock.
use skladbase.Prelude.{
  ℕ, ◌%◌, String, Bool, ◌&&◌, not, Option, none, some, List, [], ◌∷◌, ◌==◌, leb, if◌then◌else◌,
  keep, is_some,
}
use skladbase.Prelude.Int.{ℤ, pos, ◌-ℤ◌, max_ℤ, leb_ℤ}
use skladbase.Prelude.Tables.{select_one}
use skladbase.Models.{
  Variant, Reservation, ReservationStatus, MovementType, StockMovement, is_active, is_past,
  available,
}
use skladbase.Session.{Session, Action, pure, query, write, commit_all, ◌>>=◌, ◌>>◌}
use skladbase.Inventory.{movement, set_variant, set_reservation}

-- the rows that `release_expired_reservations` selects
abbrev pub is_dead : ℕ → Reservation → Bool
is_dead now r = is_active r.status && is_past r.expires_at now

-- `session.get(Variant, id)`
abbrev pub has_id : ℕ → Variant → Bool
has_id variant_id v = v.id == variant_id

abbrev pub add_movement : StockMovement → Action Session (Unit {0})
add_movement m = write (λ d. record d { movements = m ∷ d.movements })

abbrev pub emptied : Variant → Reservation → Variant
emptied v r = record v { reserved = max_ℤ (pos 0) (v.reserved -ℤ r.qty) }

abbrev pub give_back : ℕ → Reservation → Option Variant → Action Session (Unit {0})
give_back now r none = pure tt
give_back now r (some v) =
    set_variant (emptied v r)
    >> add_movement (movement now r.shop_id r.variant_id MovementType.release (pos 0))

abbrev pub dropped : ℕ → Reservation → Reservation
dropped now r = record r { status = ReservationStatus.released; released_at = some now }

abbrev pub release_one : ℕ → Reservation → Action Session (Unit {0})
release_one now r = do
  variant ← query (λ d. select_one (has_id r.variant_id) d.variants)
  give_back now r variant
  set_reservation (dropped now r)

unfoldable pub release_each : ℕ → List Reservation → Action Session (Unit {0})
release_each now [] = pure tt
release_each now (r ∷ rs) = release_one now r >> release_each now rs

-- What it returns is the list whose length the job returns.
unfoldable pub release_expired_reservations : ℕ → Action Session (List Reservation)
unfolding release_each
release_expired_reservations now = do
  dead ← query (λ d. keep (is_dead now) d.reservations)
  release_each now dead
  commit_all
  pure dead

-- the rows that `low_stock_scan` selects
unfoldable pub is_low : Variant → Bool
is_low v = leb_ℤ (available v) v.low_stock_threshold && not (is_some v.low_stock_notified_at)

abbrev pub flagged : ℕ → Variant → Variant
flagged now v = record v { low_stock_notified_at = some now }

-- A message names the variant and what is left of it.
unfoldable pub flag_each : ℕ → List Variant → Action Session (List (ℕ × ℤ))
flag_each now [] = pure []
flag_each now (v ∷ vs) = do
  set_variant (flagged now v)
  told ← flag_each now vs
  pure ((v.id, available v) ∷ told)

unfoldable pub low_stock_scan : ℕ → Action Session (List (ℕ × ℤ))
unfolding flag_each is_low
low_stock_scan now = do
  low ← query (λ d. keep is_low d.variants)
  told ← flag_each now low
  commit_all
  pure told

-- The word for a number of units; a count that is told is not negative.
unfoldable pub units : ℕ → String
units n =
    if n % 10 == 1 && not (n % 100 == 11)
    then "одиниця"
    else if leb 2 (n % 10) && leb (n % 10) 4 && not (leb 12 (n % 100) && leb (n % 100) 14)
    then "одиниці"
    else "одиниць"
