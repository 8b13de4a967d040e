-- ===== src/Inventory/Invariant/Kinds.antt =====
-- Each kind of effect keeps the invariant, however its rows were found.
use skladbase.Prelude.{
  ℕ, suc, ◌≡◌, ◌≢◌, refl, sym, ◌∙◌, inl, inr, Bool, some, List, ◌∷◌, ◌==◌, arith, All, All-imp,
  subst, Bool-cases,
}
use skladbase.Prelude.Int.{ℤ, pos, ◌≤ℤ◌, int_laws, parts}
use skladbase.Prelude.Tables.{select_one, save, total, Below-save, All-save, All-select_one}
use skladbase.Models.{Variant, Reservation, StockMovement, Db}
use skladbase.Inventory.Effect.{Journals, Moves, Passes, Stocks, Opens}
use skladbase.Inventory.Invariant.Counts.{
  Counted, Inv, held_of, away_of, goods_of, held_own, held_other, away_own, away_other,
  goods-Journals, goods-Journals_other, Counted_kept, begun_held, begun_away,
}
use skladbase.Inventory.Invariant.Progress.{advanced, held_moves, away_moves, still_positive}

module _ (base : ℕ → ℤ) (a : Db) (inv : Inv base a) where
  -- The row that a query finds, under its key.
  pub found :
      (p : Variant → Bool) (k : ℕ) {v : Variant}
      → select_one p a.variants ≡ some v
      → v.id ≡ k
      → Counted base a.reservations a.movements k v
  found p k {v} ev of =
      subst (λ j. Counted base a.reservations a.movements j v) of
        (All-select_one (λ u. Counted base a.reservations a.movements u.id u) p a.variants
          inv.counted ev)

  -- All rows, after an update of the row with key `k` that moves the sums of no other variant.
  rows :
      {rs : List Reservation} {ms : List StockMovement} (k : ℕ) (w : Variant)
      → w.id ≡ k
      → ((j : ℕ)
          → j ≢ k
          → (total (held_of j) rs ≡ total (held_of j) a.reservations)
            × (total (away_of j) rs ≡ total (away_of j) a.reservations)
            × (total (goods_of j) ms ≡ total (goods_of j) a.movements))
      → Counted base rs ms k w
      → All (λ u. Counted base rs ms u.id u) (save Variant.id w a.variants)
  rows {rs} {ms} k w same other c =
      All-save Variant.id _ _ w a.variants inv.counted
        (λ y ne cy.
          let (h, aw, g) = other y.id (λ e. ne (e ∙ sym same)) in
          Counted_kept base y.id y h aw g cy)
        (subst (λ j. Counted base rs ms j w) (sym same) c)

  pub stocked-Inv :
      (shop : ℕ) (d : ℤ) (pv : Variant → Bool) (k : ℕ) (v w : Variant) (ms : List StockMovement)
      → select_one pv a.variants ≡ some v
      → v.id ≡ k
      → Stocks d v w
      → Journals shop k d a.movements ms
      → Inv base (record a { variants = save Variant.id w a.variants; movements = ms })
  stocked-Inv shop d pv k v w ms ev of st js =
      let c = found pv k ev of in
      record {
        numbered = inv.numbered;
        positive = inv.positive;
        counted =
            rows k w (st.recounts.same_id ∙ of)
              (λ j ne. (refl, refl, goods-Journals_other shop k j d _ ms ne js))
              (record {
                fits = st.covers c.fits;
                set_aside = st.same_reserved ∙ c.set_aside;
                balanced = omega (
                  int_laws,
                  parts st.counts,
                  parts c.balanced,
                  parts (goods-Journals shop k d _ ms js),
                );
              });
      }

  pub opened-Inv :
      (shop : ℕ) (pv : Variant → Bool) (v w : Variant) (r : Reservation) (ms : List StockMovement)
      → select_one pv a.variants ≡ some v
      → v.id ≡ r.variant_id
      → Opens shop a.next_reservation v w r
      → Journals shop r.variant_id (pos 0) a.movements ms
      → Inv base (record a {
        variants = save Variant.id w a.variants;
        reservations = r ∷ a.reservations;
        movements = ms;
        next_reservation = suc a.next_reservation;
      })
  unfolding total
  opened-Inv shop pv v w r ms ev of o js =
      let k : ℕ = r.variant_id in
      let c = found pv k ev of in
      record {
        numbered = (omega (arith, o.numbered), rw o.numbered inv.numbered);
        positive = (o.positive, inv.positive);
        counted =
            rows k w (o.recounts.same_id ∙ of)
              (λ j ne. (
                omega (int_laws, parts (held_other r j ne)),
                omega (int_laws, parts (away_other r j ne)),
                goods-Journals_other shop k j (pos 0) _ ms ne js,
              ))
              (record {
                fits = o.fits;
                set_aside = omega (
                  int_laws,
                  parts o.sets_aside,
                  parts c.set_aside,
                  parts (held_own r k refl),
                  parts (begun_held r o.begins),
                );
                balanced = omega (
                  int_laws,
                  parts o.keeps,
                  parts c.balanced,
                  parts (away_own r k refl),
                  parts (begun_away r o.begins),
                  parts (goods-Journals shop k (pos 0) _ ms js),
                );
              });
      }

  pub moved-Inv :
      (shop : ℕ) (d : ℤ) (p : Reservation → Bool) (pv : Variant → Bool) (v w : Variant)
      (r q : Reservation) (ms : List StockMovement)
      → select_one p a.reservations ≡ some r
      → select_one pv a.variants ≡ some v
      → v.id ≡ r.variant_id
      → Moves d v w r q
      → Journals shop r.variant_id d a.movements ms
      → Inv base (record a {
        variants = save Variant.id w a.variants;
        reservations = save Reservation.id q a.reservations;
        movements = ms;
      })
  moved-Inv shop d p pv v w r q ms er ev of mv js =
      let k : ℕ = r.variant_id in
      let c = found pv k ev of in
      let ad = mv.advances in
      let r_positive = All-select_one (λ x. pos 1 ≤ℤ x.qty) _ a.reservations inv.positive er in
      record {
        numbered = Below-save Reservation.id _ q a.reservations inv.numbered;
        positive = still_positive base a inv p r q er ad;
        counted =
            rows k w (mv.recounts.same_id ∙ of)
              (λ j ne.
                let (h, aw) = advanced base a inv p r q er ad j ne in
                (h, aw, goods-Journals_other shop k j d _ ms ne js))
              (record {
                fits = omega (int_laws, mv.no_oversell (omega arith), c.fits);
                set_aside = omega (
                  int_laws,
                  parts mv.frees,
                  parts c.set_aside,
                  parts (held_moves base a inv p r q er ad),
                );
                balanced = omega (
                  int_laws,
                  parts mv.counts,
                  parts c.balanced,
                  parts (away_moves base a inv p r q er ad),
                  parts (goods-Journals shop k d _ ms js),
                );
              });
      }

  pub passed-Inv :
      (shop : ℕ) (d : ℤ) (p : Reservation → Bool) (r q : Reservation) (ms : List StockMovement)
      → select_one p a.reservations ≡ some r
      → Passes d r q
      → Journals shop r.variant_id d a.movements ms
      → Inv base (record a { reservations = save Reservation.id q a.reservations; movements = ms })
  passed-Inv shop d p r q ms er pa js =
      let k : ℕ = r.variant_id in
      let ad = pa.advances in
      record {
        numbered = Below-save Reservation.id _ q a.reservations inv.numbered;
        positive = still_positive base a inv p r q er ad;
        counted = All-imp _ _ a.variants inv.counted λ u c. elim (Bool-cases (u.id == k)) [
          | inr other ↦
              let (h, aw) = advanced base a inv p r q er ad u.id (ground arith) in
              Counted_kept base u.id u h aw
                (goods-Journals_other shop k u.id d _ ms (ground arith) js) c
          | inl own ↦
              let e : u.id ≡ k = ground arith in
              let c' = subst (λ j. Counted base a.reservations a.movements j u) e c in
              subst (λ j. Counted base (save Reservation.id q a.reservations) ms j u) (sym e)
                (record {
                  fits = c'.fits;
                  set_aside = omega (
                    int_laws,
                    parts c'.set_aside,
                    parts pa.frees,
                    parts (held_moves base a inv p r q er ad),
                  );
                  balanced = omega (
                    int_laws,
                    parts c'.balanced,
                    parts pa.counts,
                    parts (away_moves base a inv p r q er ad),
                    parts (goods-Journals shop k d _ ms js),
                  );
                })
        ];
      }
