-- ===== src/Inventory/Accepts.antt =====
-- When the operations succeed.
use skladbase.Prelude.{
  ℕ, ◌≡◌, refl, ◌↔◌, Bool, true, false, Option, some, arith, inl, inr, Option-cases, All-imp, ap,
  String,
}
use skladbase.Prelude.Int.{ℤ, pos, ◌+ℤ◌, ◌-ℤ◌, ◌≤ℤ◌, neg_ℤ, ltb_ℤ, int_laws, parts, not-lt→le}
use skladbase.Prelude.Tables.{select_one, save}
use skladbase.Prelude.Selections.{le-total}
use skladbase.Models.{
  Variant, Reservation, ReservationSource, ReservationStatus, MovementType, Db, available,
  is_active,
}
use skladbase.Session.{Session, Result, ok, err}
use skladbase.Inventory.Tables.{owns_variant, owns_reservation, journal, movement}
use skladbase.Inventory.Reservations.{reserve, fulfill}
use skladbase.Inventory.Refines.Outcome.{owns_variant_id}
use skladbase.Inventory.Invariant.Counts.{Inv, held_of, held_own, begun_held}
use skladbase.Inventory.Invariant.Kinds.{found}

abbrev pub is_ok : {A : Type 0} → Result A → Bool
is_ok (ok a) = true
is_ok (err e) = false

not-lt-of-le : (a b : ℤ) → b ≤ℤ a → ltb_ℤ a b ≡ false
not-lt-of-le a b h = ground arith

-- A reservation is made exactly when the quantity is positive, the variant is one of the shop, and
-- that much of it is available: never more than is on the shelf and not set aside.
pub reserve-accepts :
    (now shop k : ℕ) (qty : ℤ) (source : ReservationSource) (reason customer : Option String)
    (expires order : Option ℕ) (commit : Bool) (s : Session)
    → (is_ok (reserve now shop k qty source reason customer expires order commit s).0 ≡ true) ↔ (
        (pos 1 ≤ℤ qty)
        × (v : Variant) × (select_one (owns_variant shop k) s.work.variants ≡ some v)
        × (v.reserved +ℤ qty ≤ℤ v.on_hand))
unfolding reserve
reserve-accepts now shop k qty source reason customer expires order commit s =
    elim (Option-cases (select_one (owns_variant shop k) s.work.variants)) [
      | inl missing ↦ ((λ h. absurd (ground arith)), (λ (p, v, e, q). cc))
      | inr (v, ev) ↦ (
        (λ h. (ground arith, v, ev, omega (int_laws, not-lt→le (available v) qty (ground arith)))),
        (λ (p, w, ew, q).
            let same : w ≡ v = ground arith in
            let enough : ltb_ℤ (available w) qty ≡ false =
              not-lt-of-le (available w) qty (omega int_laws) in
            ground (arith, ap (λ (u : Variant). ltb_ℤ (available u) qty) same)),
      )
    ]

pub held_nonneg : (k : ℕ) (r : Reservation) → pos 1 ≤ℤ r.qty → pos 0 ≤ℤ held_of k r
held_nonneg k r h = ground arith

-- In a sound database what an active reservation holds is on the shelf.
pub held-on-shelf :
    (base : ℕ → ℤ) (d : Db) (shop : ℕ) (p : Reservation → Bool) (r : Reservation) (v : Variant)
    → Inv base d
    → select_one p d.reservations ≡ some r
    → select_one (owns_variant shop r.variant_id) d.variants ≡ some v
    → r.status ≡ ReservationStatus.active
    → r.qty ≤ℤ v.on_hand
held-on-shelf base d shop p r v inv er ev a =
    let c =
      found base d inv (owns_variant shop r.variant_id) r.variant_id ev
        (owns_variant_id shop r.variant_id d.variants ev).0 in
    let share =
      le-total (held_of r.variant_id) p d.reservations
        (All-imp _ _ d.reservations inv.positive (held_nonneg r.variant_id)) er in
    omega (
      int_laws,
      share,
      c.fits,
      parts c.set_aside,
      parts (held_own r r.variant_id refl),
      parts (begun_held r a),
    )

-- What a sale of a reservation does to the tables.
abbrev pub fulfilled_db : ℕ → ℕ → Reservation → Variant → Db → Db
fulfilled_db now shop r v d = record d {
  variants =
      save Variant.id (record v { on_hand = v.on_hand -ℤ r.qty; reserved = v.reserved -ℤ r.qty })
        d.variants;
  reservations =
      save Reservation.id (record r { status = ReservationStatus.fulfilled }) d.reservations;
  movements =
      journal
        (record (movement now shop v.id MovementType.sale (neg_ℤ r.qty)) {
          order_id = r.order_id;
          reservation_id = some r.id;
          price_at = some v.price;
        })
        d.movements;
}

-- In a sound database an active reservation of the shop, whose variant is one of the shop, is
-- always sold: the guard against too little stock never stops it.
pub fulfill-accepts :
    (base : ℕ → ℤ) (now shop k : ℕ) (s : Session) (r : Reservation) (v : Variant)
    → Inv base s.work
    → select_one (owns_reservation shop k) s.work.reservations ≡ some r
    → select_one (owns_variant shop r.variant_id) s.work.variants ≡ some v
    → is_active r.status ≡ true
    → fulfill now shop k false s ≡ (
      ok (record r { status = ReservationStatus.fulfilled }),
      record s { work = fulfilled_db now shop r v s.work },
    )
unfolding fulfill
fulfill-accepts base now shop k s r v inv er ev a =
    let enough : ltb_ℤ v.on_hand r.qty ≡ false =
      not-lt-of-le v.on_hand r.qty
        (held-on-shelf base s.work shop (owns_reservation shop k) r v inv er ev (ground arith)) in
    ground arith
