-- ===== src/Inventory/Refines/Shipping.antt =====
-- `ship`, `update_ttn`, `pick_up` and `not_picked_up`.
use skladbase.Prelude.{
  ℕ, ◌≡◌, refl, inl, inr, String, Bool, Option, none, some, arith, Option-cases,
}
use skladbase.Prelude.Int.{pos, ◌+ℤ◌, ◌-ℤ◌, neg_ℤ, int_laws}
use skladbase.Prelude.Tables.{select_one}
use skladbase.Models.{Variant, Reservation, ReservationStatus, MovementType}
use skladbase.Session.{Session}
use skladbase.Inventory.Tables.{owns_variant, owns_reservation, movement}
use skladbase.Inventory.Reservations.{ship, update_ttn, pick_up, not_picked_up}
use skladbase.Inventory.Effect.{
  moved, passed, nothing, Moves, Passes, ships, picks_up, returns, relabels,
}
use skladbase.Inventory.Refines.Outcome.{
  Ends, Ends-of, journal-Journals, owns_variant_id, advance, recount,
}

ship_Moves :
    (now : ℕ) (ttn : Option String) (v : Variant) (r : Reservation)
    → r.status ≡ ReservationStatus.active
    → Moves
        (pos 0)
        v
        (record v { on_hand = v.on_hand -ℤ r.qty; reserved = v.reserved -ℤ r.qty })
        r
        (record r { status = ReservationStatus.shipped; shipped_at = some now; ttn = ttn })
ship_Moves now ttn v r a = record {
  recounts = recount _ _ refl refl;
  advances = advance r _ a ships (refl, refl, refl, refl);
  frees = rw a (omega int_laws);
  counts = rw a (omega int_laws);
  no_oversell = λ h. omega int_laws;
}

pub ship-Ends :
    (now shop id : ℕ) (ttn : Option String) (commit : Bool) (s : Session)
    → Ends shop commit s (ship now shop id ttn commit s)
unfolding ship
ship-Ends now shop id ttn commit s =
    Ends-of shop commit s _ (λ e h. ground arith)
      λ a h. elim (Option-cases (select_one (owns_reservation shop id) s.work.reservations)) [
        | inl missing ↦ absurd (ground arith)
        | inr (r, er) ↦
            elim (Option-cases (select_one (owns_variant shop r.variant_id) s.work.variants)) [
              | inl missing ↦ absurd (ground arith)
              | inr (v, ev) ↦ (
                moved (pos 0) id v _ r _ s.work.movements er ev
                    (ship_Moves now ttn v r (ground arith)) (nothing refl refl) (ground arith),
                ground arith,
              )
            ]
      ]

update_ttn_Passes :
    (ttn : String) (r : Reservation)
    → r.status ≡ ReservationStatus.shipped
    → Passes (pos 0) r (record r { ttn = some ttn })
update_ttn_Passes ttn r a = record {
  advances = advance r _ a (rw a relabels) (refl, refl, refl, refl);
  frees = refl;
  counts = omega int_laws;
}

pub update_ttn-Ends :
    (shop id : ℕ) (ttn : String) (commit : Bool) (s : Session)
    → Ends shop commit s (update_ttn shop id ttn commit s)
unfolding update_ttn
update_ttn-Ends shop id ttn commit s =
    Ends-of shop commit s _ (λ e h. ground arith)
      λ a h. elim (Option-cases (select_one (owns_reservation shop id) s.work.reservations)) [
        | inl missing ↦ absurd (ground arith)
        | inr (r, er) ↦ (
          passed (pos 0) id r _ s.work.movements er (update_ttn_Passes ttn r (ground arith))
              (nothing refl refl) (ground arith),
          ground arith,
        )
      ]

pick_up_Passes :
    (r : Reservation)
    → r.status ≡ ReservationStatus.shipped
    → Passes (neg_ℤ r.qty) r (record r { status = ReservationStatus.fulfilled })
pick_up_Passes r a = record {
  advances = advance r _ a picks_up (refl, refl, refl, refl);
  frees = rw a refl;
  counts = rw a (omega int_laws);
}

pub pick_up-Ends :
    (now shop id : ℕ) (commit : Bool) (s : Session)
    → Ends shop commit s (pick_up now shop id commit s)
unfolding pick_up
pick_up-Ends now shop id commit s =
    Ends-of shop commit s _ (λ e h. ground arith)
      λ a h. elim (Option-cases (select_one (owns_reservation shop id) s.work.reservations)) [
        | inl missing ↦ absurd (ground arith)
        | inr (r, er) ↦
            elim (Option-cases (select_one (owns_variant shop r.variant_id) s.work.variants)) [
              | inl missing ↦ absurd (ground arith)
              | inr (v, ev) ↦ (
                passed (neg_ℤ r.qty) id r _ _ er (pick_up_Passes r (ground arith))
                    (journal-Journals shop r.variant_id (neg_ℤ r.qty)
                      (record (movement now shop v.id MovementType.sale (neg_ℤ r.qty)) {
                        order_id = r.order_id;
                        reservation_id = some r.id;
                        price_at = some v.price;
                      })
                      s.work.movements refl (owns_variant_id shop r.variant_id s.work.variants ev).0
                      refl)
                    (ground arith),
                ground arith,
              )
            ]
      ]

not_picked_up_Moves :
    (now : ℕ) (v : Variant) (r : Reservation)
    → r.status ≡ ReservationStatus.shipped
    → Moves
        (pos 0)
        v
        (record v { on_hand = v.on_hand +ℤ r.qty })
        r
        (record r { status = ReservationStatus.released; released_at = some now })
not_picked_up_Moves now v r a = record {
  recounts = recount _ _ refl refl;
  advances = advance r _ a returns (refl, refl, refl, refl);
  frees = rw a (omega int_laws);
  counts = rw a (omega int_laws);
  no_oversell = λ h. omega int_laws;
}

pub not_picked_up-Ends :
    (now shop id : ℕ) (reason : String) (comment : Option String) (commit : Bool) (s : Session)
    → Ends shop commit s (not_picked_up now shop id reason comment commit s)
unfolding not_picked_up
not_picked_up-Ends now shop id reason comment commit s =
    Ends-of shop commit s _ (λ e h. ground arith)
      λ a h. elim (Option-cases (select_one (owns_reservation shop id) s.work.reservations)) [
        | inl missing ↦ absurd (ground arith)
        | inr (r, er) ↦
            elim (Option-cases (select_one (owns_variant shop r.variant_id) s.work.variants)) [
              | inl missing ↦ absurd (ground arith)
              | inr (v, ev) ↦ (
                moved (pos 0) id v _ r _ _ er ev (not_picked_up_Moves now v r (ground arith))
                    (journal-Journals shop r.variant_id (pos 0)
                      (record (movement now shop v.id MovementType.ret r.qty) {
                        order_id = r.order_id;
                        reservation_id = some r.id;
                        reason = some reason;
                        comment = comment;
                        price_at = none;
                      })
                      s.work.movements refl (owns_variant_id shop r.variant_id s.work.variants ev).0
                      refl)
                    (ground arith),
                ground arith,
              )
            ]
      ]
