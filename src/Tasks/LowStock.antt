-- ===== src/Tasks/LowStock.antt =====
-- app/tasks.py: whom `low_stock_scan` tells.
use skladbase.Prelude.{
  ℕ, ◌≡◌, refl, ◌∙◌, ap, true, false, List, [], ◌∷◌, arith, if◌then◌else◌, keep, map,
}
use skladbase.Prelude.Int.{ℤ}
use skladbase.Prelude.Tables.{save, Below}
use skladbase.Prelude.Updates.{save_each, save_each-map, keep-map_none}
use skladbase.Models.{Variant, Db, available}
use skladbase.Session.{Session, ok, >>=-ok, pure, commit_all, ◌>>◌}
use skladbase.Inventory.Calls.{opened_on}
use skladbase.Tasks.Reservations.{is_low, flagged, flag_each, low_stock_scan}

abbrev pub low_message : Variant → ℕ × ℤ
low_message v = (v.id, available v)

flag_each-saves :
    (now : ℕ) (vs : List Variant) (s : Session)
    → flag_each now vs s ≡ (
      ok (map low_message vs),
      record s {
        work = record s.work { variants = save_each Variant.id (flagged now) vs s.work.variants };
      },
    )
unfolding flag_each save_each
flag_each-saves now [] s = refl
flag_each-saves now (v ∷ vs) s =
    let s' : Session = record s {
      work = record s.work { variants = save Variant.id (flagged now v) s.work.variants };
    } in
    >>=-ok (flag_each now vs) (λ told. pure (low_message v ∷ told)) s' (flag_each-saves now vs s')

flagged-is_low : (now : ℕ) (v : Variant) → is_low v ≡ true → is_low (flagged now v) ≡ false
unfolding is_low
flagged-is_low now v e = ground arith

-- Where keys are unique the scan never raises. It tells of exactly the variants at or under their
-- bound that have not been told of, with what is left of each; it commits their flags and nothing
-- else; and run again, at any time, it tells of none.
pub low_stock_scan-map :
    (now later n : ℕ) (d : Db)
    → Below Variant.id n d.variants
    → (t : Db) × (low_stock_scan now (opened_on d)
        ≡ (ok (map low_message (keep is_low d.variants)), opened_on t))
      × (t ≡ record d { variants = map (λ v. if is_low v then flagged now v else v) d.variants })
      × (low_stock_scan later (opened_on t) ≡ (ok [], opened_on t))
unfolding low_stock_scan flag_each
low_stock_scan-map now later n d numbered =
    let low = keep is_low d.variants in
    let loop = flag_each-saves now low (opened_on d) in
    let rows = save_each-map Variant.id (flagged now) is_low n d.variants (λ v. refl) numbered in
    let none_left = keep-map_none is_low (flagged now) d.variants (flagged-is_low now) in
    (
      record d { variants = map (λ v. if is_low v then flagged now v else v) d.variants },
      >>=-ok (flag_each now low) (λ told. commit_all >> pure told) (opened_on d) loop
          ∙ ap (λ vs. (ok (map low_message low), opened_on (record d { variants = vs }))) rows,
      refl,
      rw none_left refl,
    )
