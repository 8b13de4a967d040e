-- ===== src/Inventory/Invariant/Progress.antt =====
-- What a reservation that goes on does to the sums over the reservations.
use skladbase.Prelude.{ℕ, ◌≡◌, ◌≢◌, refl, sym, ◌∙◌, Bool, some, All, subst}
use skladbase.Prelude.Int.{ℤ, pos, ◌+ℤ◌, ◌≤ℤ◌, int_laws, parts}
use skladbase.Prelude.Tables.{select_one, save, total, total-save, All-save, All-select_one}
use skladbase.Models.{Reservation, Db}
use skladbase.Inventory.Effect.{held, away, Advances}
use skladbase.Inventory.Invariant.Counts.{
  Inv, held_of, away_of, held_own, held_other, away_own, away_other, total_same,
}

module _ (base : ℕ → ℤ) (a : Db) (inv : Inv base a) where
  -- The sums over the reservations after a reservation has gone on.
  pub advanced :
      (p : Reservation → Bool) (r q : Reservation)
      → select_one p a.reservations ≡ some r
      → Advances r q
      → (j : ℕ) → j ≢ r.variant_id
      → (total (held_of j) (save Reservation.id q a.reservations)
          ≡ total (held_of j) a.reservations)
        × (total (away_of j) (save Reservation.id q a.reservations)
            ≡ total (away_of j) a.reservations)
  advanced p r q er ad j ne =
      let ne' : j ≢ q.variant_id = λ e. ne (e ∙ ad.same_variant) in
      (
        total_same (held_of j) _ a.next_reservation q a.reservations inv.numbered er ad.same_id
            (held_other q j ne' ∙ sym (held_other r j ne)),
        total_same (away_of j) _ a.next_reservation q a.reservations inv.numbered er ad.same_id
            (away_other q j ne' ∙ sym (away_other r j ne)),
      )

  pub held_moves :
      (p : Reservation → Bool) (r q : Reservation)
      → select_one p a.reservations ≡ some r
      → Advances r q
      → total (held_of r.variant_id) (save Reservation.id q a.reservations) +ℤ held r.status r.qty
        ≡ total (held_of r.variant_id) a.reservations +ℤ held q.status q.qty
  held_moves p r q er ad =
      let k : ℕ = r.variant_id in
      omega (
        int_laws,
        parts (held_own r k refl),
        parts (held_own q k ad.same_variant),
        parts (
            total-save Reservation.id (held_of k) _ a.next_reservation q a.reservations inv.numbered
              er ad.same_id),
      )

  pub away_moves :
      (p : Reservation → Bool) (r q : Reservation)
      → select_one p a.reservations ≡ some r
      → Advances r q
      → total (away_of r.variant_id) (save Reservation.id q a.reservations) +ℤ away r.status r.qty
        ≡ total (away_of r.variant_id) a.reservations +ℤ away q.status q.qty
  away_moves p r q er ad =
      let k : ℕ = r.variant_id in
      omega (
        int_laws,
        parts (away_own r k refl),
        parts (away_own q k ad.same_variant),
        parts (
            total-save Reservation.id (away_of k) _ a.next_reservation q a.reservations inv.numbered
              er ad.same_id),
      )

  -- The reservations themselves after one has gone on.
  pub still_positive :
      (p : Reservation → Bool) (r q : Reservation)
      → select_one p a.reservations ≡ some r
      → Advances r q
      → All (λ x. pos 1 ≤ℤ x.qty) (save Reservation.id q a.reservations)
  still_positive p r q er ad =
      All-save Reservation.id _ _ q a.reservations inv.positive (λ y ne h. h)
        (subst (λ z. pos 1 ≤ℤ z) (sym ad.same_qty)
          (All-select_one (λ x. pos 1 ≤ℤ x.qty) _ a.reservations inv.positive er))
