-- ===== src/Tasks/Parcels.antt =====
-- app/tasks.py: what a cycle of `np_tracking` keeps, whatever Nova Poshta answers.
mod Steps
pub mod Answers
mod Elements
use skladbase.Prelude.{
  ℕ, sym, ◌⊎◌, String, Bool, true, false, Option, none, some, List, [], ◌∷◌, ◌++◌, ◌==◌, All-append,
  All-imp, Bool-cases, Option-cases, subst, if◌then◌else◌, keep, map, has_text,
}
use skladbase.Prelude.Int.{ℤ, pos, ◌≤ℤ◌}
use skladbase.Prelude.Tables.{
  select_one, select_one-test, save, All-save, All-select_one, Below-save,
}
use skladbase.Models.{
  Error, inventory_error, order_error, subscription_error, catalog_error, http_error, server_error,
  novaposhta_error, integrity_error, HttpStatus, Variant, Reservation, Shop, Db, is_shipped,
}
use skladbase.Session.{
  Session, Action, Result, ok, err, pure, raise, or_raise, raise_if, query, commit_all, ◌>>=◌, ◌>>◌,
}
use skladbase.Inventory.{pick_up, not_picked_up, finalize_sale, owns_reservation, owns_variant}
use skladbase.Inventory.Refines.{Ends, pick_up-Ends, not_picked_up-Ends}
use skladbase.Inventory.Invariant.{Inv, Effect-Inv, held_of, away_of, Counted}
use skladbase.Inventory.Invariant.Counts.{total_same, Counted_kept}
use skladbase.Inventory.Calls.{opened_on}
use skladbase.Catalog.{Product}
use skladbase.NovaPoshta.{
  Document, Code, no_code, infinite_code, unfit_code, text_code, number_code, Row, no_object,
  document, Answer, unreachable, unreadable, misshapen, answers, track, track_each, extend,
  and_rest, checked, picked_codes, returned_codes,
}
use skladbase.Tasks.Tracking.{
  amend, assign, same_row, skipping, skipped, unless_raised, by_code, with_code, track_row,
  track_element, track_results, followed_by, np_tracking, track_shops, with_key, ask, unless_failed,
  note_recipient, extract_np_recipient, code_of, row_of, by_ttn, is_on_its_way, text_of, key_of,
  has_np_key, with_recipient, with_status, tell_picked, tell_returned,
}
use Steps.{
  IsMild, Mild, bind-Safe, amend-Safe, note_recipient-Safe, Ends-Sound, then-Mild, Safe-Mild,
  skipping-Safe, pick_up-IsMild, not_picked_up-IsMild,
}
use Elements.{Keeps, followed_by-Keeps, track_element-Keeps}

module _ (base : ℕ → ℤ) where
  track_results-Keeps :
      (now : ℕ) (products : List Product) (shop : Shop) (rows : List (String × Reservation))
      (results : List Row)
      → Keeps base (track_results now products shop rows results)
  unfolding track_results
  track_results-Keeps now products shop rows [] s h = h
  track_results-Keeps now products shop rows (result ∷ results) s h =
      followed_by-Keeps base (track_element now products shop rows result)
        (track_results now products shop rows results)
        (track_element-Keeps base now products shop rows result)
        (track_results-Keeps now products shop rows results) s h

  unless_failed-Keeps :
      (now : ℕ) (products : List Product) (shop : Shop) (rows : List (String × Reservation))
      (r : Result (List Row))
      → Keeps base (unless_failed now products shop rows r)
  unless_failed-Keeps now products shop rows (ok results) s h =
      track_results-Keeps now products shop rows results s h
  unless_failed-Keeps now products shop rows (err novaposhta_error) s h = h
  unless_failed-Keeps now products shop rows (err server_error) s h = h
  unless_failed-Keeps now products shop rows (err integrity_error) s h = h
  unless_failed-Keeps now products shop rows (err (inventory_error c)) s h = h
  unless_failed-Keeps now products shop rows (err (order_error c)) s h = h
  unless_failed-Keeps now products shop rows (err (subscription_error c)) s h = h
  unless_failed-Keeps now products shop rows (err (catalog_error c)) s h = h
  unless_failed-Keeps now products shop rows (err (http_error c)) s h = h

  module _ (decrypt : String → Option String) (remote : String → List String → Answer) where
    ask-Keeps :
        (now : ℕ) (products : List Product) (shop : Shop) (key : String)
        (rows : List (String × Reservation))
        → Keeps base (ask decrypt remote now products shop key rows)
    ask-Keeps now products shop key [] s h = h
    ask-Keeps now products shop key (e ∷ es) s h =
        unless_failed-Keeps now products shop (e ∷ es) (track remote key (e.0 ∷ map key_of es)) s h

    with_key-Keeps :
        (now : ℕ) (products : List Product) (shop : Shop) (key : Option String)
        → Keeps base (with_key decrypt remote now products shop key)
    with_key-Keeps now products shop none s h = h
    with_key-Keeps now products shop (some key) s h =
        ask-Keeps now products shop key
          (by_ttn (keep (is_on_its_way shop.id) s.work.reservations) []) s h

    track_shops-Keeps :
        (now : ℕ) (products : List Product) (shops : List Shop)
        → Keeps base (track_shops decrypt remote now products shops)
    unfolding track_shops
    track_shops-Keeps now products [] s h = h
    track_shops-Keeps now products (shop ∷ shops) s h =
        let key = decrypt (text_of shop.np_api_key_encrypted) in
        followed_by-Keeps base (with_key decrypt remote now products shop key)
          (track_shops decrypt remote now products shops) (with_key-Keeps now products shop key)
          (track_shops-Keeps now products shops) s h

-- Whatever comes back from Nova Poshta, also where the cycle raises, what it has committed at its end
-- is as sound as it was.
np_tracking-Keeps :
    (base : ℕ → ℤ) (decrypt : String → Option String) (remote : String → List String → Answer)
    (now : ℕ) (products : List Product) (shops : List Shop) (d : Db)
    → Inv base d
    → Inv base (np_tracking decrypt remote now products shops (opened_on d)).1.committed
unfolding np_tracking
np_tracking-Keeps base decrypt remote now products shops d inv =
    (track_shops-Keeps base decrypt remote now products (keep (has_np_key decrypt remote) shops)
      (opened_on d) (inv, inv)).1
