-- ===== src/Inventory/Refines/Holding.antt =====
-- `reserve`, `release` and `fulfill`.
use skladbase.Prelude.{
  ℕ, ◌≡◌, refl, inl, inr, String, Bool, false, Option, some, arith, Option-cases,
}
use skladbase.Prelude.Int.{ℤ, pos, ◌+ℤ◌, ◌-ℤ◌, neg_ℤ, int_laws, ltb_ℤ, leb_ℤ, not-lt→le, not-le→lt}
use skladbase.Prelude.Tables.{select_one}
use skladbase.Models.{
  Variant, Reservation, ReservationSource, ReservationStatus, MovementType, available,
}
use skladbase.Session.{Session}
use skladbase.Inventory.Tables.{owns_variant, owns_reservation, movement}
use skladbase.Inventory.Reservations.{new_reservation, reserve, release, fulfill}
use skladbase.Inventory.Effect.{opened, moved, Opens, Moves, releases, fulfills}
use skladbase.Inventory.Refines.Outcome.{
  Ends, Ends-of, journal-Journals, owns_variant_id, advance, recount,
}

reserve_Opens :
    (shop next : ℕ) (v : Variant) (r : Reservation)
    → r.id ≡ next
    → r.shop_id ≡ shop
    → r.status ≡ ReservationStatus.active
    → leb_ℤ r.qty (pos 0) ≡ false
    → ltb_ℤ (available v) r.qty ≡ false
    → Opens shop next v (record v { reserved = v.reserved +ℤ r.qty }) r
reserve_Opens shop next v r numbered own begins positive enough = record {
  recounts = recount _ _ refl refl;
  numbered = numbered;
  own = own;
  begins = begins;
  positive = not-le→lt r.qty positive;
  fits = omega (int_laws, not-lt→le (available v) r.qty enough);
  sets_aside = refl;
  keeps = refl;
}

pub reserve-Ends :
    (now shop variant_id : ℕ) (qty : ℤ) (source : ReservationSource)
    (reason customer : Option String) (expires order : Option ℕ) (commit : Bool) (s : Session)
    → Ends shop commit s
        (reserve now shop variant_id qty source reason customer expires order commit s)
unfolding reserve
reserve-Ends now shop variant_id qty source reason customer expires order commit s =
    Ends-of shop commit s _ (λ e h. ground arith)
      λ a h. elim (Option-cases (select_one (owns_variant shop variant_id) s.work.variants)) [
        | inl missing ↦ absurd (ground arith)
        | inr (v, ev) ↦
            let r : Reservation =
              new_reservation now shop variant_id qty source reason customer expires order
                s.work.next_reservation in
            (
              opened v _ r _ ev
                  (reserve_Opens shop s.work.next_reservation v r refl refl refl (ground arith)
                    (ground arith))
                  (journal-Journals shop variant_id (pos 0)
                    (record (movement now shop variant_id MovementType.reserve qty) {
                      order_id = order;
                    })
                    s.work.movements refl refl refl)
                  (ground arith),
              ground arith,
            )
      ]

release_Moves :
    (now : ℕ) (v : Variant) (r : Reservation)
    → r.status ≡ ReservationStatus.active
    → Moves
        (pos 0)
        v
        (record v { reserved = v.reserved -ℤ r.qty })
        r
        (record r { status = ReservationStatus.released; released_at = some now })
release_Moves now v r a = record {
  recounts = recount _ _ refl refl;
  advances = advance r _ a releases (refl, refl, refl, refl);
  frees = rw a (omega int_laws);
  counts = rw a (omega int_laws);
  no_oversell = λ h. omega int_laws;
}

pub release-Ends :
    (now shop id : ℕ) (reason comment : Option String) (commit : Bool) (s : Session)
    → Ends shop commit s (release now shop id reason comment commit s)
unfolding release
release-Ends now shop id reason comment commit s =
    Ends-of shop commit s _ (λ e h. ground arith)
      λ a h. elim (Option-cases (select_one (owns_reservation shop id) s.work.reservations)) [
        | inl missing ↦ absurd (ground arith)
        | inr (r, er) ↦
            elim (Option-cases (select_one (owns_variant shop r.variant_id) s.work.variants)) [
              | inl missing ↦ absurd (ground arith)
              | inr (v, ev) ↦ (
                moved (pos 0) id v _ r _ _ er ev (release_Moves now v r (ground arith))
                    (journal-Journals shop r.variant_id (pos 0)
                      (record (movement now shop v.id MovementType.release (neg_ℤ r.qty)) {
                        order_id = r.order_id;
                        reservation_id = some r.id;
                        reason = reason;
                        comment = comment;
                      })
                      s.work.movements refl (owns_variant_id shop r.variant_id s.work.variants ev).0
                      refl)
                    (ground arith),
                ground arith,
              )
            ]
      ]

fulfill_Moves :
    (v : Variant) (r : Reservation)
    → r.status ≡ ReservationStatus.active
    → Moves
        (neg_ℤ r.qty)
        v
        (record v { on_hand = v.on_hand -ℤ r.qty; reserved = v.reserved -ℤ r.qty })
        r
        (record r { status = ReservationStatus.fulfilled })
fulfill_Moves v r a = record {
  recounts = recount _ _ refl refl;
  advances = advance r _ a fulfills (refl, refl, refl, refl);
  frees = rw a (omega int_laws);
  counts = rw a (omega int_laws);
  no_oversell = λ h. omega int_laws;
}

pub fulfill-Ends :
    (now shop id : ℕ) (commit : Bool) (s : Session)
    → Ends shop commit s (fulfill now shop id commit s)
unfolding fulfill
fulfill-Ends now shop id commit s =
    Ends-of shop commit s _ (λ e h. ground arith)
      λ a h. elim (Option-cases (select_one (owns_reservation shop id) s.work.reservations)) [
        | inl missing ↦ absurd (ground arith)
        | inr (r, er) ↦
            elim (Option-cases (select_one (owns_variant shop r.variant_id) s.work.variants)) [
              | inl missing ↦ absurd (ground arith)
              | inr (v, ev) ↦ (
                moved (neg_ℤ r.qty) id v _ r _ _ er ev (fulfill_Moves v r (ground arith))
                    (journal-Journals shop r.variant_id (neg_ℤ r.qty)
                      (record (movement now shop v.id MovementType.sale (neg_ℤ r.qty)) {
                        order_id = r.order_id;
                        reservation_id = some r.id;
                        price_at = some v.price;
                      })
                      s.work.movements refl (owns_variant_id shop r.variant_id s.work.variants ev).0
                      refl)
                    (ground arith),
                ground arith,
              )
            ]
      ]
