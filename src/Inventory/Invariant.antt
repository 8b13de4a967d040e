-- ===== src/Inventory/Invariant.antt =====
-- The invariant of the stock tables: no variant is oversold, what is set aside is what the active
-- reservations hold, and the goods on the shelf and on the way are what the journal says.
pub mod Counts
mod Progress
pub mod Kinds
pub use Counts.{Counted, Inv, held_of, away_of, goods_of}
use Kinds.{opened-Inv, moved-Inv, passed-Inv, stocked-Inv}
use skladbase.Prelude.{
  ℕ, suc, ◌≡◌, ◌≢◌, refl, sym, ◌∙◌, inl, inr, Bool, some, List, ◌∷◌, ◌==◌, if◌then◌else◌, arith,
  All, All-imp, subst, Bool-cases,
}
use skladbase.Prelude.Int.{ℤ, pos, ◌+ℤ◌, ◌≤ℤ◌, int_laws, parts}
use skladbase.Prelude.Tables.{
  select_one, save, total, total-save, Below, Below-save, All-save, All-select_one,
}
use skladbase.Models.{Variant, Reservation, ReservationStatus, StockMovement, Db}
use skladbase.Inventory.Tables.{owns_variant, owns_reservation}
use skladbase.Inventory.Effect.{
  held, away, goods, Journals, nothing, one, Advances, Moves, Passes, Stocks, Opens, Effect, opened,
  moved, passed, stocked,
}
use skladbase.Inventory.Refines.Outcome.{owns_variant_id}

-- Every effect keeps the invariant.
pub Effect-Inv : (base : ℕ → ℤ) (shop : ℕ) (a b : Db) → Inv base a → Effect shop a b → Inv base b
Effect-Inv base shop a b inv (opened v w r ms ev o js e) = rw e (
    opened-Inv base a inv shop _ v w r ms ev (owns_variant_id shop r.variant_id a.variants ev).0 o
      js)
Effect-Inv base shop a b inv (moved d id v w r q ms er ev mv js e) = rw e (
    moved-Inv base a inv shop d _ _ v w r q ms er ev
      (owns_variant_id shop r.variant_id a.variants ev).0 mv js)
Effect-Inv base shop a b inv (passed d id r q ms er pa js e) =
    rw e (passed-Inv base a inv shop d _ r q ms er pa js)
Effect-Inv base shop a b inv (stocked d k v w ms ev st js e) =
    rw e
      (stocked-Inv base a inv shop d _ k v w ms ev (owns_variant_id shop k a.variants ev).0 st js)
