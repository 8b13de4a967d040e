-- ===== src/Tasks/Parcels/Elements.antt =====
-- app/tasks.py: what one element of an answer does in `np_tracking`.
use skladbase.Prelude.{
  ℕ, ◌≡◌, refl, inl, inr, String, true, false, Option, none, some, List, [], ◌++◌, arith,
  Bool-cases,
}
use skladbase.Prelude.Int.{ℤ}
use skladbase.Models.{Reservation, Shop}
use skladbase.Session.{Session, Action, Result, ok, err, pure, commit_all, ◌>>=◌, ◌>>◌}
use skladbase.Inventory.{pick_up, not_picked_up}
use skladbase.Inventory.Refines.{pick_up-Ends, not_picked_up-Ends}
use skladbase.Catalog.{Product}
use skladbase.NovaPoshta.{
  Document, Code, no_code, infinite_code, unfit_code, text_code, number_code, Row, no_object,
  document, picked_codes, returned_codes,
}
use skladbase.Tasks.Tracking.{
  Notice, amend, skipping, by_code, with_code, track_row, track_element, followed_by,
  note_recipient, extract_np_recipient, code_of, row_of, with_status, tell_picked, tell_returned,
}
use skladbase.Tasks.Parcels.Steps.{
  Sound, IsOk, Safe, Mild, bind-Safe, amend-Safe, note_recipient-Safe, Ends-Sound, then-Mild,
  Safe-Mild, skipping-Safe, pick_up-IsMild, not_picked_up-IsMild,
}
use skladbase.Tasks.Parcels.Answers.{Fits}

module _ (base : ℕ → ℤ) where
  picked-Mild :
      (now : ℕ) (products : List Product) (shop : Shop) (r : Reservation)
      → Mild base (pick_up now shop.id r.id true >>= tell_picked products shop r)
  picked-Mild now products shop r s h =
      then-Mild base (tell_picked products shop r) s (pick_up now shop.id r.id true s)
        (λ q t k. (k, tt))
        (
          Ends-Sound base shop.id s (pick_up now shop.id r.id true s)
              (pick_up-Ends now shop.id r.id true s) h,
          pick_up-IsMild now shop.id r.id s,
        )

  returned-Mild :
      (now : ℕ) (products : List Product) (shop : Shop) (r : Reservation)
      → Mild base
          (not_picked_up now shop.id r.id "refused" none true >>= tell_returned products shop r)
  returned-Mild now products shop r s h =
      let out = not_picked_up now shop.id r.id "refused" none true s in
      then-Mild base (tell_returned products shop r) s out (λ q t k. (k, tt))
        (
          Ends-Sound base shop.id s out (not_picked_up-Ends now shop.id r.id "refused" none true s)
              h,
          not_picked_up-IsMild now shop.id r.id s,
        )

  noted-Safe :
      (r : Reservation) (status : Option String)
      → Safe base (amend r (with_status status) >> commit_all >> pure {A = List Notice} [])
  noted-Safe r status =
      bind-Safe base (amend r (with_status status) >> commit_all) (λ _. pure [])
        (bind-Safe base (amend r (with_status status)) (λ _. commit_all)
          (amend-Safe base r (with_status status) (λ q. (refl, refl, refl, refl)))
          (λ _ s h. ((h.0, h.0), tt)))
        (λ _ s h. (h, tt))

  by_code-Safe :
      (now : ℕ) (products : List Product) (shop : Shop) (result : Document) (r : Reservation)
      (code : ℤ)
      → Safe base (skipping (by_code now products shop result r code))
  by_code-Safe now products shop result r code s h = elim (Bool-cases (picked_codes code)) [
    | inl t ↦ rw t (skipping-Safe base _ (picked-Mild now products shop r) s h)
    | inr f ↦ elim (Bool-cases (returned_codes code)) [
      | inl t ↦ rw (f, t) (skipping-Safe base _ (returned-Mild now products shop r) s h)
      | inr g ↦ rw (f, g) (skipping-Safe base _ (Safe-Mild base _ (noted-Safe r result.status)) s h)
    ]
  ]

  pub followed_by-Safe :
      (m k : Action Session (List Notice)) → Safe base m → Safe base k → Safe base (followed_by m k)
  followed_by-Safe m k h g =
      bind-Safe base m (λ first. k >>= λ rest. pure (first ++ rest)) h
        λ first. bind-Safe base k (λ rest. pure (first ++ rest)) g λ rest s e. (e, tt)

  with_code-Safe :
      (now : ℕ) (products : List Product) (shop : Shop) (result : Document) (r : Reservation)
      (code : Result (Option ℤ))
      → IsOk code
      → Safe base (with_code now products shop result r code)
  with_code-Safe now products shop result r (err e) fit = absurd (ground (arith, fit))
  with_code-Safe now products shop result r (ok none) fit = λ s h. (h, tt)
  with_code-Safe now products shop result r (ok (some code)) fit =
      bind-Safe base (note_recipient r (extract_np_recipient result))
        (λ _. skipping (by_code now products shop result r code))
        (note_recipient-Safe base r (extract_np_recipient result))
        λ _. by_code-Safe now products shop result r code

  code_of-IsOk :
      (c : Code)
      → elim c [
        | no_code ↦ true
        | infinite_code ↦ false
        | unfit_code ↦ true
        | text_code t ↦ true
        | number_code n ↦ true
      ]
        ≡ true
      → IsOk (code_of c)
  code_of-IsOk no_code h = tt
  code_of-IsOk infinite_code h = absurd (ground (arith, h))
  code_of-IsOk unfit_code h = tt
  code_of-IsOk (text_code t) h = tt
  code_of-IsOk (number_code n) h = tt

  track_row-Safe :
      (now : ℕ) (products : List Product) (shop : Shop) (result : Document) (o : Option Reservation)
      → Fits (document result)
      → Safe base (track_row now products shop result o)
  track_row-Safe now products shop result none fit = λ s h. (h, tt)
  track_row-Safe now products shop result (some r) fit =
      with_code-Safe now products shop result r (code_of result.status_code)
        (code_of-IsOk result.status_code fit)

  pub track_element-Safe :
      (now : ℕ) (products : List Product) (shop : Shop) (rows : List (String × Reservation))
      (result : Row)
      → Fits result
      → Safe base (track_element now products shop rows result)
  track_element-Safe now products shop rows no_object fit = absurd (ground (arith, fit))
  track_element-Safe now products shop rows (document result) fit =
      track_row-Safe now products shop result (row_of result.number rows) fit

  -- What a step keeps, whether it returns or raises.
  abbrev pub Keeps : {A : Type 0} → Action Session A → Type 0
  Keeps m = (s : Session) → Sound base s → Sound base (m s).1

  then-Keeps :
      {A B : Type 0} (f : A → Action Session B) (s : Session) (out : Result A × Session)
      → ((a : A) → Keeps (f a))
      → Sound base out.1
      → Sound base (((λ _. out) >>= f) s).1
  then-Keeps f s (ok a, t) g h = g a t h
  then-Keeps f s (err e, t) g h = h

  pub followed_by-Keeps :
      (m k : Action Session (List Notice)) → Keeps m → Keeps k → Keeps (followed_by m k)
  followed_by-Keeps m k h g s sound =
      then-Keeps (λ first. k >>= λ rest. pure (first ++ rest)) s (m s)
        (λ first t st. then-Keeps (λ rest. pure (first ++ rest)) t (k t) (λ rest u su. su) (g t st))
        (h s sound)

  with_code-Keeps :
      (now : ℕ) (products : List Product) (shop : Shop) (result : Document) (r : Reservation)
      (code : Result (Option ℤ))
      → Keeps (with_code now products shop result r code)
  with_code-Keeps now products shop result r (err e) s h = h
  with_code-Keeps now products shop result r (ok code) s h =
      (with_code-Safe now products shop result r (ok code) tt s h).0

  track_row-Keeps :
      (now : ℕ) (products : List Product) (shop : Shop) (result : Document) (o : Option Reservation)
      → Keeps (track_row now products shop result o)
  track_row-Keeps now products shop result none s h = h
  track_row-Keeps now products shop result (some r) s h =
      with_code-Keeps now products shop result r (code_of result.status_code) s h

  pub track_element-Keeps :
      (now : ℕ) (products : List Product) (shop : Shop) (rows : List (String × Reservation))
      (result : Row)
      → Keeps (track_element now products shop rows result)
  track_element-Keeps now products shop rows no_object s h = h
  track_element-Keeps now products shop rows (document result) s h =
      track_row-Keeps now products shop result (row_of result.number rows) s h
