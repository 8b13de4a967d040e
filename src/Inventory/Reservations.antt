-- ===== src/Inventory/Reservations.antt =====
-- app/services/inventory.py: the operations on a reservation. `now` is what `utcnow()` returns.
use skladbase.Prelude.{
  ℕ, suc, String, Bool, false, ◌&&◌, not, Option, none, some, ◌∷◌, has_text, is_member, str_eq,
}
use skladbase.Prelude.Int.{ℤ, ◌+ℤ◌, ◌-ℤ◌, neg_ℤ, ltb_ℤ}
use skladbase.Models.{
  conflict, unprocessable_entity, inventory_error, Variant, Reservation, ReservationSource,
  ReservationStatus, MovementType, Db, available, is_active, is_shipped,
}
use skladbase.Session.{Session, Action, ◌>>=◌, ◌>>◌, raise_if, write, query}
use skladbase.Inventory.Ttn.{validate_ttn}
use skladbase.Inventory.Tables.{
  release_reasons, not_picked_up_reasons, locked_variant, locked_reservation, set_variant,
  set_reservation, movement, record_movement, require_positive_qty, finalize,
}

abbrev pub new_reservation :
    ℕ
    → ℕ
    → ℕ
    → ℤ
    → ReservationSource
    → Option String
    → Option String
    → Option ℕ
    → Option ℕ
    → ℕ
    → Reservation
new_reservation now shop_id variant_id qty source reason customer_note expires_at order_id id =
    record {
      id = id;
      shop_id = shop_id;
      variant_id = variant_id;
      order_id = order_id;
      qty = qty;
      reason = reason;
      customer_note = customer_note;
      source = source;
      status = ReservationStatus.active;
      expires_at = expires_at;
      created_at = now;
      released_at = none;
      ttn = none;
      shipped_at = none;
      np_status = none;
      np_recipient = none;
    }

abbrev pub add_reservation : Reservation → Action Session (Unit {0})
add_reservation r =
    write (λ d. record d {
      reservations = r ∷ d.reservations;
      next_reservation = suc d.next_reservation;
    })

unfoldable pub reserve :
    ℕ
    → ℕ
    → ℕ
    → ℤ
    → ReservationSource
    → Option String
    → Option String
    → Option ℕ
    → Option ℕ
    → Bool
    → Action Session Reservation
reserve now shop_id variant_id qty source reason customer_note expires_at order_id commit = do
  require_positive_qty qty
  variant ← locked_variant shop_id variant_id
  raise_if (ltb_ℤ (available variant) qty) (inventory_error conflict)
  set_variant (record variant { reserved = variant.reserved +ℤ qty })
  id ← query Db.next_reservation
  let reservation =
      new_reservation now shop_id variant_id qty source reason customer_note expires_at order_id id
  add_reservation reservation
  record_movement
      (record (movement now shop_id variant_id MovementType.reserve qty) { order_id = order_id })
  finalize reservation commit

-- `reason is not None and reason not in RELEASE_REASONS`
abbrev unknown_release_reason : Option String → Bool
unknown_release_reason none = false
unknown_release_reason (some reason) = not (is_member reason release_reasons)

abbrev says_other : Option String → Bool
says_other none = false
says_other (some reason) = str_eq reason "other"

unfoldable pub release :
    ℕ → ℕ → ℕ → Option String → Option String → Bool → Action Session Reservation
release now shop_id reservation_id reason comment commit = do
  raise_if (unknown_release_reason reason) (inventory_error unprocessable_entity)
  raise_if (says_other reason && not (has_text comment)) (inventory_error unprocessable_entity)
  reservation ← locked_reservation shop_id reservation_id
  raise_if (not (is_active reservation.status)) (inventory_error conflict)
  variant ← locked_variant shop_id reservation.variant_id
  set_variant (record variant { reserved = variant.reserved -ℤ reservation.qty })
  let released = record reservation { status = ReservationStatus.released; released_at = some now }
  set_reservation released
  record_movement
      (record (movement now shop_id variant.id MovementType.release (neg_ℤ reservation.qty)) {
        order_id = reservation.order_id;
        reservation_id = some reservation.id;
        reason = reason;
        comment = comment;
      })
  finalize released commit

unfoldable pub finalize_sale : ℕ → ℕ → Reservation → Variant → Bool → Action Session Reservation
finalize_sale now shop_id reservation variant commit = do
  let sold = record reservation { status = ReservationStatus.fulfilled }
  set_reservation sold
  record_movement
      (record (movement now shop_id variant.id MovementType.sale (neg_ℤ reservation.qty)) {
        order_id = reservation.order_id;
        reservation_id = some reservation.id;
        price_at = some variant.price;
      })
  finalize sold commit

unfoldable pub fulfill : ℕ → ℕ → ℕ → Bool → Action Session Reservation
unfolding finalize_sale
fulfill now shop_id reservation_id commit = do
  reservation ← locked_reservation shop_id reservation_id
  raise_if (not (is_active reservation.status)) (inventory_error conflict)
  variant ← locked_variant shop_id reservation.variant_id
  raise_if (ltb_ℤ variant.on_hand reservation.qty) (inventory_error conflict)
  let taken = record variant {
    on_hand = variant.on_hand -ℤ reservation.qty;
    reserved = variant.reserved -ℤ reservation.qty;
  }
  set_variant taken
  finalize_sale now shop_id reservation taken commit

unfoldable pub ship : ℕ → ℕ → ℕ → Option String → Bool → Action Session Reservation
ship now shop_id reservation_id ttn commit = do
  validate_ttn ttn
  reservation ← locked_reservation shop_id reservation_id
  raise_if (not (is_active reservation.status)) (inventory_error conflict)
  variant ← locked_variant shop_id reservation.variant_id
  set_variant (record variant {
    on_hand = variant.on_hand -ℤ reservation.qty;
    reserved = variant.reserved -ℤ reservation.qty;
  })
  let sent = record reservation {
    status = ReservationStatus.shipped;
    shipped_at = some now;
    ttn = ttn;
  }
  set_reservation sent
  finalize sent commit

unfoldable pub update_ttn : ℕ → ℕ → String → Bool → Action Session Reservation
update_ttn shop_id reservation_id ttn commit = do
  validate_ttn (some ttn)
  reservation ← locked_reservation shop_id reservation_id
  raise_if (not (is_shipped reservation.status)) (inventory_error conflict)
  let relabelled = record reservation { ttn = some ttn }
  set_reservation relabelled
  finalize relabelled commit

unfoldable pub pick_up : ℕ → ℕ → ℕ → Bool → Action Session Reservation
unfolding finalize_sale
pick_up now shop_id reservation_id commit = do
  reservation ← locked_reservation shop_id reservation_id
  raise_if (not (is_shipped reservation.status)) (inventory_error conflict)
  variant ← locked_variant shop_id reservation.variant_id
  finalize_sale now shop_id reservation variant commit

unfoldable pub not_picked_up :
    ℕ → ℕ → ℕ → String → Option String → Bool → Action Session Reservation
not_picked_up now shop_id reservation_id reason comment commit = do
  raise_if (not (is_member reason not_picked_up_reasons)) (inventory_error unprocessable_entity)
  raise_if (str_eq reason "other" && not (has_text comment)) (inventory_error unprocessable_entity)
  reservation ← locked_reservation shop_id reservation_id
  raise_if (not (is_shipped reservation.status)) (inventory_error conflict)
  variant ← locked_variant shop_id reservation.variant_id
  set_variant (record variant { on_hand = variant.on_hand +ℤ reservation.qty })
  let returned = record reservation { status = ReservationStatus.released; released_at = some now }
  set_reservation returned
  record_movement (record (movement now shop_id variant.id MovementType.ret reservation.qty) {
    order_id = reservation.order_id;
    reservation_id = some reservation.id;
    reason = some reason;
    comment = comment;
    price_at = none;
  })
  finalize returned commit
