-- ===== src/Inventory/Refines/Outcome.antt =====
-- How a call ends, and what the proofs about the operations share.
use skladbase.Prelude.{
  ℕ, ◌≡◌, refl, sym, ◌∙◌, subst, inl, inr, Bool, true, some, List, if◌then◌else◌, arith, Bool-cases,
}
use skladbase.Prelude.Int.{ℤ, pos, is_zero_ℤ, eq_of_parts}
use skladbase.Prelude.Tables.{select_one, select_one-test}
use skladbase.Models.{Variant, Reservation, ReservationStatus, StockMovement, MovementType, Error}
use skladbase.Session.{Session, Result, ok, err}
use skladbase.Inventory.Tables.{owns_variant, journal}
use skladbase.Inventory.Effect.{
  Effect, Journals, nothing, one, goods, Transition, Advances, Recounts,
}

-- A raise leaves all as it was. A return has an effect on the transaction, and commits it if that
-- was asked for.
abbrev pub Ends : {A : Type 0} → ℕ → Bool → Session → Result A × Session → Type 0
Ends shop commit s (err e, t) = t ≡ s
Ends shop commit s (ok a, t) =
    Effect shop s.work t.work × (t.committed ≡ (if commit then t.work else s.committed))

pub Ends-of :
    {A : Type 0} (shop : ℕ) (commit : Bool) (s : Session) (out : Result A × Session)
    → ((e : Error) → out.0 ≡ err e → out.1 ≡ s)
    → ((a : A)
        → out.0 ≡ ok a
        → Effect shop s.work out.1.work
          × (out.1.committed ≡ (if commit then out.1.work else s.committed)))
    → Ends shop commit s out
Ends-of shop commit s (err e, t) raised done = raised e refl
Ends-of shop commit s (ok a, t) raised done = done a refl

goods_zero : (t : MovementType) (d : ℤ) → is_zero_ℤ d ≡ true → goods t d ≡ pos 0
goods_zero MovementType.sale d h = ground (arith, eq_of_parts d (pos 0))
goods_zero _ d h = ground (arith, eq_of_parts d (pos 0))

-- A call of `_record_movement`, also where it writes nothing.
pub journal-Journals :
    (shop variant_id : ℕ) (d : ℤ) (m : StockMovement) (ms : List StockMovement)
    → m.shop_id ≡ shop
    → m.variant_id ≡ variant_id
    → goods m.type_of m.delta ≡ d
    → Journals shop variant_id d ms (journal m ms)
unfolding journal
journal-Journals shop variant_id d m ms own of counts = elim (Bool-cases (is_zero_ℤ m.delta)) [
  | inl zero ↦ rw zero (nothing refl (sym counts ∙ goods_zero m.type_of m.delta zero))
  | inr some_goods ↦ rw some_goods (one m refl own of counts)
]

pub owns_variant_id :
    (shop variant_id : ℕ) (vs : List Variant) {v : Variant}
    → select_one (owns_variant shop variant_id) vs ≡ some v
    → (v.id ≡ variant_id) × (v.shop_id ≡ shop)
owns_variant_id shop variant_id vs e =
    ground (arith, select_one-test (owns_variant shop variant_id) vs e)

-- The advance of a reservation whose status is known.
pub advance :
    (r q : Reservation) {from : ReservationStatus}
    → r.status ≡ from
    → Transition from q.status
    → (q.id ≡ r.id) × (q.shop_id ≡ r.shop_id) × (q.variant_id ≡ r.variant_id) × (q.qty ≡ r.qty)
    → Advances r q
advance r q e t same = record {
  same_id = same.0;
  same_shop = same.1;
  same_variant = same.2;
  same_qty = same.3;
  step = subst (λ st. Transition st q.status) (sym e) t;
}

pub recount : (v w : Variant) → w.id ≡ v.id → w.shop_id ≡ v.shop_id → Recounts v w
recount v w i s = record { same_id = i; same_shop = s }
