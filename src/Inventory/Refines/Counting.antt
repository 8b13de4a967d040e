-- ===== src/Inventory/Refines/Counting.antt =====
-- `sell_direct`, `restock` and `write_off`.
use skladbase.Prelude.{
  ℕ, ◌≡◌, refl, inl, inr, String, Bool, false, Option, none, some, if◌then◌else◌, arith,
  Option-cases, str_eq,
}
use skladbase.Prelude.Int.{ℤ, pos, ◌+ℤ◌, ◌-ℤ◌, neg_ℤ, int_laws, ltb_ℤ, leb_ℤ, not-lt→le, not-le→lt}
use skladbase.Prelude.Tables.{select_one}
use skladbase.Models.{Variant, MovementType, available}
use skladbase.Session.{Session}
use skladbase.Inventory.Tables.{owns_variant, movement, maybe_reset_low_stock_flag}
use skladbase.Inventory.Stock.{sell_direct, restock, write_off}
use skladbase.Inventory.Effect.{stocked, Stocks}
use skladbase.Inventory.Refines.Outcome.{Ends, Ends-of, journal-Journals, recount}

-- Goods that are not set aside go out.
take_Stocks :
    (v : Variant) (qty : ℤ)
    → ltb_ℤ (available v) qty ≡ false
    → Stocks (neg_ℤ qty) v (record v { on_hand = v.on_hand -ℤ qty })
take_Stocks v qty enough = record {
  recounts = recount _ _ refl refl;
  same_reserved = refl;
  counts = omega int_laws;
  covers = λ h. omega (int_laws, not-lt→le (available v) qty enough);
}

pub sell_direct-Ends :
    (now shop id : ℕ) (qty : ℤ) (order : Option ℕ) (commit : Bool) (s : Session)
    → Ends shop commit s (sell_direct now shop id qty order commit s)
unfolding sell_direct
sell_direct-Ends now shop id qty order commit s =
    Ends-of shop commit s _ (λ e h. ground arith)
      λ a h. elim (Option-cases (select_one (owns_variant shop id) s.work.variants)) [
        | inl missing ↦ absurd (ground arith)
        | inr (v, ev) ↦ (
          stocked (neg_ℤ qty) id v _ _ ev (take_Stocks v qty (ground arith))
              (journal-Journals shop id (neg_ℤ qty)
                (record (movement now shop id MovementType.sale (neg_ℤ qty)) {
                  order_id = order;
                  price_at = some v.price;
                })
                s.work.movements refl refl refl)
              (ground arith),
          ground arith,
        )
      ]

restock_Stocks :
    (v : Variant) (qty : ℤ)
    → leb_ℤ qty (pos 0) ≡ false
    → Stocks qty v (maybe_reset_low_stock_flag (record v { on_hand = v.on_hand +ℤ qty }))
restock_Stocks v qty positive = record {
  recounts = recount _ _ (ground arith) (ground arith);
  same_reserved = ground arith;
  counts = ground arith;
  covers = λ h. grind (int_laws, not-le→lt qty positive);
}

pub restock-Ends :
    (now shop id : ℕ) (qty : ℤ) (commit : Bool) (s : Session)
    → Ends shop commit s (restock now shop id qty commit s)
unfolding restock
restock-Ends now shop id qty commit s =
    Ends-of shop commit s _ (λ e h. ground arith)
      λ a h. elim (Option-cases (select_one (owns_variant shop id) s.work.variants)) [
        | inl missing ↦ absurd (ground arith)
        | inr (v, ev) ↦ (
          stocked qty id v _ _ ev (restock_Stocks v qty (ground arith))
              (journal-Journals shop id qty (movement now shop id MovementType.restock qty)
                s.work.movements refl refl refl)
              (ground arith),
          ground arith,
        )
      ]

pub write_off-Ends :
    (now shop id : ℕ) (qty : ℤ) (reason : String) (comment : Option String) (commit : Bool)
    (s : Session)
    → Ends shop commit s (write_off now shop id qty reason comment commit s)
unfolding write_off
write_off-Ends now shop id qty reason comment commit s =
    Ends-of shop commit s _ (λ e h. ground arith)
      λ a h. elim (Option-cases (select_one (owns_variant shop id) s.work.variants)) [
        | inl missing ↦ absurd (ground arith)
        | inr (v, ev) ↦ (
          stocked (neg_ℤ qty) id v _ _ ev (take_Stocks v qty (ground arith))
              (journal-Journals shop id (neg_ℤ qty)
                (record (movement now shop id
                  (if str_eq reason "sold" then MovementType.sale else MovementType.adjustment)
                  (neg_ℤ qty)) {
                    reason = some reason;
                    comment = comment;
                    price_at = if str_eq reason "sold" then some v.price else none;
                  })
                s.work.movements refl refl (ground arith))
              (ground arith),
          ground arith,
        )
      ]
