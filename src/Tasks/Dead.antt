-- ===== src/Tasks/Dead.antt =====
-- app/tasks.py: `release_expired_reservations` keeps the tables of stock sound.
use skladbase.Prelude.{
  ℕ, ◌≡◌, refl, ◌∙◌, Bool, true, some, List, [], ◌∷◌, arith, keep, All, All-imp, is_some, ◌==◌,
}
use skladbase.Prelude.Int.{ℤ, pos, ◌+ℤ◌, max_ℤ-exact, int_laws, parts}
use skladbase.Prelude.Tables.{select_one, select_one-test, save}
use skladbase.Prelude.Selections.{select_one-keep, keep-save_head, select_one-save, le-total}
use skladbase.Models.{Variant, Reservation, ReservationStatus, MovementType, Db}
use skladbase.Session.{Session, ok, >>=-ok, commit_all, pure, ◌>>◌}
use skladbase.Inventory.{movement}
use skladbase.Inventory.Effect.{one, releases}
use skladbase.Inventory.Invariant.{Inv, held_of}
use skladbase.Inventory.Invariant.Counts.{held_own, begun_held}
use skladbase.Inventory.Invariant.Kinds.{moved-Inv, found}
use skladbase.Inventory.Calls.{opened_on}
use skladbase.Prelude.Updates.{keep-head, some-of}
use skladbase.Inventory.Accepts.{held_nonneg}
use skladbase.Tasks.Reservations.{
  is_dead, has_id, emptied, dropped, release_one, release_each, release_expired_reservations,
}

-- The foreign key of a reservation.
abbrev pub Linked : List Variant → Reservation → Type 0
Linked vs r = is_some (select_one (has_id r.variant_id) vs) ≡ true

abbrev pub has_key : ℕ → Reservation → Bool
has_key id r = r.id == id

-- The tables after one turn of the loop.
abbrev pub dropped_db : ℕ → Reservation → Variant → Db → Db
dropped_db now r v d = record d {
  variants = save Variant.id (emptied v r) d.variants;
  reservations = save Reservation.id (dropped now r) d.reservations;
  movements = movement now r.shop_id r.variant_id MovementType.release (pos 0) ∷ d.movements;
}

-- What an active reservation holds is set aside, so the bound of the subtraction never bites.
emptied_exact :
    (base : ℕ → ℤ) (d : Db) (p : Reservation → Bool) (r : Reservation) (v : Variant)
    → Inv base d
    → select_one p d.reservations ≡ some r
    → select_one (has_id r.variant_id) d.variants ≡ some v
    → r.status ≡ ReservationStatus.active
    → (emptied v r).reserved +ℤ r.qty ≡ v.reserved
emptied_exact base d p r v inv er ev a =
    let of : v.id ≡ r.variant_id =
      ground (arith, select_one-test (has_id r.variant_id) d.variants ev) in
    let c = found base d inv (has_id r.variant_id) r.variant_id ev of in
    let share =
      le-total (held_of r.variant_id) p d.reservations
        (All-imp _ _ d.reservations inv.positive (held_nonneg r.variant_id)) er in
    max_ℤ-exact v.reserved r.qty (
      omega (
        int_laws,
        share,
        parts c.set_aside,
        parts (held_own r r.variant_id refl),
        parts (begun_held r a),
      ))

dropped-Inv :
    (base : ℕ → ℤ) (now : ℕ) (d : Db) (p : Reservation → Bool) (r : Reservation) (v : Variant)
    → Inv base d
    → select_one p d.reservations ≡ some r
    → select_one (has_id r.variant_id) d.variants ≡ some v
    → r.status ≡ ReservationStatus.active
    → Inv base (dropped_db now r v d)
dropped-Inv base now d p r v inv er ev a =
    let of : v.id ≡ r.variant_id =
      ground (arith, select_one-test (has_id r.variant_id) d.variants ev) in
    let exact = emptied_exact base d p r v inv er ev a in
    moved-Inv base d inv r.shop_id (pos 0) p (has_id r.variant_id) v (emptied v r) r (dropped now r)
      _ er ev of
      (record {
        recounts = record { same_id = refl; same_shop = refl };
        advances = record {
          same_id = refl;
          same_shop = refl;
          same_variant = refl;
          same_qty = refl;
          step = rw a releases;
        };
        frees = rw a (omega (int_laws, parts exact));
        counts = rw a (omega int_laws);
        no_oversell = λ h. omega (int_laws, parts exact);
      })
      (one _ refl refl refl refl)

step-done :
    (now : ℕ) (r : Reservation) (v : Variant) (s : Session)
    → select_one (has_id r.variant_id) s.work.variants ≡ some v
    → release_one now r s ≡ (ok tt, record s { work = dropped_db now r v s.work })
step-done now r v s ev = rw ev refl

-- Dropping one reservation keeps the variants of the others.
still-Linked :
    (now : ℕ) (r : Reservation) (v : Variant) (d : Db) (q : Reservation)
    → Linked d.variants q
    → Linked (dropped_db now r v d).variants q
still-Linked now r v d q h =
    select_one-save Variant.id (has_id q.variant_id) (emptied v r) d.variants
      (λ y same hit. ground arith) h

release_each-completes :
    (base : ℕ → ℤ) (now : ℕ) (rs : List Reservation) (s : Session)
    → Inv base s.work
    → keep (is_dead now) s.work.reservations ≡ rs
    → All (Linked s.work.variants) rs
    → (t : Session) × (release_each now rs s ≡ (ok tt, t))
      × Inv base t.work
      × (keep (is_dead now) t.work.reservations ≡ [])
unfolding release_each
release_each-completes base now [] s inv e h = (s, refl, inv, e)
release_each-completes base now (r ∷ rs) s inv e h =
    let dead = keep-head (is_dead now) s.work.reservations e in
    let active : r.status ≡ ReservationStatus.active = ground arith in
    let er : select_one (has_key r.id) s.work.reservations ≡ some r =
      select_one-keep Reservation.id (is_dead now) (has_key r.id) s.work.next_reservation
        s.work.reservations inv.numbered (ground arith) (λ y hit. ground arith) e in
    let (v, ev) = some-of (select_one (has_id r.variant_id) s.work.variants) h.0 in
    let s' : Session = record s { work = dropped_db now r v s.work } in
    let (t, done, inv', none_left) =
      release_each-completes base now rs s'
        (dropped-Inv base now s.work (has_key r.id) r v inv er ev active)
        (keep-save_head Reservation.id (is_dead now) s.work.next_reservation (dropped now r)
          s.work.reservations inv.numbered refl refl e)
        (All-imp _ _ rs h.1 (still-Linked now r v s.work)) in
    (
      t,
      >>=-ok (release_one now r) (λ _. release_each now rs) s (step-done now r v s ev) ∙ done,
      inv',
      none_left,
    )

-- On sound tables, whose reservations have their variants, the job always returns the expired
-- active reservations; what it commits is sound again, with no expired active reservation left.
pub release_expired_reservations-completes :
    (base : ℕ → ℤ) (now : ℕ) (d : Db)
    → Inv base d
    → All (Linked d.variants) (keep (is_dead now) d.reservations)
    → (t : Session) × (release_expired_reservations now (opened_on d)
        ≡ (ok (keep (is_dead now) d.reservations), t))
      × Inv base t.committed
      × (keep (is_dead now) t.committed.reservations ≡ [])
unfolding release_expired_reservations
release_expired_reservations-completes base now d inv linked =
    let dead = keep (is_dead now) d.reservations in
    let (t, done, inv', none_left) =
      release_each-completes base now dead (opened_on d) inv refl linked in
    (
      record t { committed = t.work },
      >>=-ok (release_each now dead) (λ _. commit_all >> pure dead) (opened_on d) done,
      inv',
      none_left,
    )
