-- ===== src/Inventory/Isolation.antt =====
-- Tenants: a request of one shop leaves the rows of every other shop alone.
use skladbase.Prelude.{ℕ, ◌≡◌, ◌≢◌, refl, ◌∙◌, inl, inr, some, false, List, ◌==◌, arith, keep}
use skladbase.Prelude.Int.{ℤ}
use skladbase.Prelude.Tables.{Below, save, select_one, select_one-test}
use skladbase.Prelude.Selections.{keep-save}
use skladbase.Models.{Variant, Reservation, StockMovement, Db}
use skladbase.Inventory.Tables.{owns_variant, owns_reservation}
use skladbase.Inventory.Effect.{
  Effect, opened, moved, passed, stocked, Advances, Recounts, Journals, nothing, one,
}
use skladbase.Inventory.Refines.Outcome.{owns_variant_id}
use skladbase.Inventory.Calls.{Call, request}
use skladbase.Inventory.History.{request-Effect}

-- The rows of a shop in the three tables.
abbrev pub variants_of : ℕ → Db → List Variant
variants_of shop d = keep (λ v. v.shop_id == shop) d.variants

abbrev pub reservations_of : ℕ → Db → List Reservation
reservations_of shop d = keep (λ r. r.shop_id == shop) d.reservations

abbrev pub movements_of : ℕ → Db → List StockMovement
movements_of shop d = keep (λ m. m.shop_id == shop) d.movements

-- What one shop sees is the same in both databases.
pub record SameFor (shop : ℕ) (a b : Db) : Type 0 where
  pub variants : variants_of shop b ≡ variants_of shop a
  pub reservations : reservations_of shop b ≡ reservations_of shop a
  pub movements : movements_of shop b ≡ movements_of shop a

differs : (s t u : ℕ) → s ≡ t → u ≢ t → (s == u) ≡ false
differs s t u e ne = ground arith

module _ (shop other : ℕ) (a : Db) (ne : other ≢ shop) where
  variants-kept :
      (k n : ℕ) (v w : Variant)
      → Below Variant.id n a.variants
      → select_one (owns_variant shop k) a.variants ≡ some v
      → Recounts v w
      → keep (λ x. x.shop_id == other) (save Variant.id w a.variants) ≡ variants_of other a
  variants-kept k n v w b ev rc =
      let own = (owns_variant_id shop k a.variants ev).1 in
      keep-save Variant.id _ _ n w a.variants b ev rc.same_id
        (differs w.shop_id shop other (rc.same_shop ∙ own) ne) (differs v.shop_id shop other own ne)

  reservations-kept :
      (id n : ℕ) (r q : Reservation)
      → Below Reservation.id n a.reservations
      → select_one (owns_reservation shop id) a.reservations ≡ some r
      → Advances r q
      → keep (λ x. x.shop_id == other) (save Reservation.id q a.reservations)
        ≡ reservations_of other a
  reservations-kept id n r q b er ad =
      let own : r.shop_id ≡ shop =
        ground (arith, select_one-test (owns_reservation shop id) a.reservations er) in
      keep-save Reservation.id _ _ n q a.reservations b er ad.same_id
        (differs q.shop_id shop other (ad.same_shop ∙ own) ne) (differs r.shop_id shop other own ne)

  movements-kept :
      {k : ℕ} {d : ℤ} {ms : List StockMovement}
      → Journals shop k d a.movements ms
      → keep (λ m. m.shop_id == other) ms ≡ movements_of other a
  movements-kept (nothing e z) = rw e refl
  movements-kept (one m e own of counts) = rw (e, differs m.shop_id shop other own ne) refl

  -- The effect of a call in one shop is none in another.
  Effect-SameFor :
      (n : ℕ) (b : Db)
      → Below Variant.id n a.variants
      → Below Reservation.id a.next_reservation a.reservations
      → Effect shop a b
      → SameFor other a b
  Effect-SameFor n b bv br (opened v w r ms ev o js e) = rw e (record {
    variants = variants-kept r.variant_id n v w bv ev o.recounts;
    reservations = rw (differs r.shop_id shop other o.own ne) refl;
    movements = movements-kept js;
  })
  Effect-SameFor n b bv br (moved d id v w r q ms er ev mv js e) = rw e (record {
    variants = variants-kept r.variant_id n v w bv ev mv.recounts;
    reservations = reservations-kept id a.next_reservation r q br er mv.advances;
    movements = movements-kept js;
  })
  Effect-SameFor n b bv br (passed d id r q ms er pa js e) = rw e (record {
    variants = refl;
    reservations = reservations-kept id a.next_reservation r q br er pa.advances;
    movements = movements-kept js;
  })
  Effect-SameFor n b bv br (stocked d k v w ms ev st js e) = rw e (record {
    variants = variants-kept k n v w bv ev st.recounts;
    reservations = refl;
    movements = movements-kept js;
  })

-- Where the keys are distinct, a request made for one shop, whatever ids it names, changes no
-- variant, reservation or movement of any other shop and adds none there.
pub request-SameFor :
    (now shop other n : ℕ) (c : Call) (d : Db)
    → other ≢ shop
    → Below Variant.id n d.variants
    → Below Reservation.id d.next_reservation d.reservations
    → SameFor other d (request now shop c d)
request-SameFor now shop other n c d ne bv br = elim (request-Effect now shop c d) [
  | inl same ↦ rw same (record { variants = refl; reservations = refl; movements = refl })
  | inr effect ↦ Effect-SameFor shop other d ne n _ bv br effect
]
