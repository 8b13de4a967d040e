-- ===== src/Tasks/Parcels/Steps.antt =====
-- app/tasks.py: what each step of `np_tracking` keeps.
use skladbase.Prelude.{
  ℕ, ◌≡◌, refl, sym, inl, inr, String, Bool, true, false, Option, none, some, List, arith, All-imp,
  Bool-cases, subst, has_text,
}
use skladbase.Prelude.Int.{ℤ, pos, ◌≤ℤ◌}
use skladbase.Prelude.Tables.{select_one, save, All-save, All-select_one, Below-save}
use skladbase.Models.{
  Error, inventory_error, order_error, subscription_error, catalog_error, http_error, server_error,
  novaposhta_error, integrity_error, Reservation, Db,
}
use skladbase.Session.{Session, Action, Result, ok, err, ◌>>=◌}
use skladbase.Inventory.{pick_up, not_picked_up, finalize_sale}
use skladbase.Inventory.Refines.{Ends}
use skladbase.Inventory.Invariant.{Inv, Effect-Inv, held_of, away_of}
use skladbase.Inventory.Invariant.Counts.{total_same, Counted_kept}
use skladbase.Tasks.Tracking.{
  Notice, amend, assign, same_row, skipping, skipped, unless_raised, note_recipient, with_recipient,
}

-- A row with the same stock in the same state; the rest of it is what people read.
abbrev pub SameStock : Reservation → Reservation → Type 0
SameStock r q =
    (q.id ≡ r.id) × (q.variant_id ≡ r.variant_id) × (q.qty ≡ r.qty) × (q.status ≡ r.status)

held_same : (k : ℕ) (r q : Reservation) → SameStock r q → held_of k q ≡ held_of k r
held_same k r q (i, v, n, s) = rw (v, n, s) refl

away_same : (k : ℕ) (r q : Reservation) → SameStock r q → away_of k q ≡ away_of k r
away_same k r q (i, v, n, s) = rw (v, n, s) refl

annotated-Inv :
    (base : ℕ → ℤ) (d : Db) (p : Reservation → Bool) (r q : Reservation)
    → Inv base d
    → select_one p d.reservations ≡ some r
    → SameStock r q
    → Inv base (record d { reservations = save Reservation.id q d.reservations })
annotated-Inv base d p r q inv e same =
    let n = d.next_reservation in
    let rs = d.reservations in
    record {
      numbered = Below-save Reservation.id n q rs inv.numbered;
      positive =
          All-save Reservation.id (λ x. pos 1 ≤ℤ x.qty) (λ x. pos 1 ≤ℤ x.qty) q rs inv.positive
            (λ y ne h. h)
            (subst (λ z. pos 1 ≤ℤ z) (sym same.2)
              (All-select_one (λ x. pos 1 ≤ℤ x.qty) p rs inv.positive e));
      counted = All-imp _ _ d.variants inv.counted λ v c.
          Counted_kept base v.id v
            (total_same (held_of v.id) p n q rs inv.numbered e same.0 (held_same v.id r q same))
            (total_same (away_of v.id) p n q rs inv.numbered e same.0 (away_same v.id r q same))
            refl c;
    }

-- Both what is committed and what the transaction has written is sound.
abbrev pub Sound : (ℕ → ℤ) → Session → Type 0
Sound base s = Inv base s.work × Inv base s.committed

-- An InventoryError, which the cycle catches, or no error.
abbrev pub IsMild : {A : Type 0} → Result A → Type 0
IsMild (ok a) = Unit
IsMild (err (inventory_error c)) = Unit
IsMild (err e) = true ≡ false

abbrev pub IsOk : {A : Type 0} → Result A → Type 0
IsOk (ok a) = Unit
IsOk (err e) = true ≡ false

module _ (base : ℕ → ℤ) where
  abbrev pub Safe : {A : Type 0} → Action Session A → Type 0
  Safe m = (s : Session) → Sound base s → Sound base (m s).1 × IsOk (m s).0

  then-Safe :
      {A B : Type 0} (f : A → Action Session B) (s : Session) (out : Result A × Session)
      → ((a : A) → Safe (f a))
      → Sound base out.1 × IsOk out.0
      → Sound base (((λ _. out) >>= f) s).1 × IsOk (((λ _. out) >>= f) s).0
  then-Safe f s (ok a, t) g h = g a t h.0
  then-Safe f s (err e, t) g h = absurd (ground (arith, h.1))

  pub bind-Safe :
      {A B : Type 0} (m : Action Session A) (f : A → Action Session B)
      → Safe m
      → ((a : A) → Safe (f a))
      → Safe (m >>= f)
  bind-Safe m f h g s k = then-Safe f s (m s) g (h s k)

  pub amend-Safe :
      (r : Reservation) (f : Reservation → Reservation)
      → ((q : Reservation) → SameStock q (f q))
      → Safe (amend r f)
  amend-Safe r f same s h = found (select_one (same_row r) s.work.reservations) refl
    where
      Kept : Option Reservation → Type 0
      Kept o = Sound base (assign f o s).1 × IsOk (assign f o s).0

      found : (o : Option Reservation) → select_one (same_row r) s.work.reservations ≡ o → Kept o
      found none e = (h, tt)
      found (some q) e = ((annotated-Inv base s.work (same_row r) q (f q) h.0 e (same q), h.1), tt)

  pub note_recipient-Safe : (r : Reservation) (o : Option String) → Safe (note_recipient r o)
  note_recipient-Safe r none s h = (h, tt)
  note_recipient-Safe r (some t) s h = elim (Bool-cases (has_text (some t))) [
    | inl e ↦ rw e (amend-Safe r (with_recipient t) (λ q. (refl, refl, refl, refl)) s h)
    | inr e ↦ rw e (h, tt)
  ]

  -- A call that commits, and raises an InventoryError at most.
  abbrev pub Mild : {A : Type 0} → Action Session A → Type 0
  Mild m = (s : Session) → Sound base s → Sound base (m s).1 × IsMild (m s).0

  pub Ends-Sound :
      {A : Type 0} (shop : ℕ) (s : Session) (out : Result A × Session)
      → Ends shop true s out
      → Sound base s
      → Sound base out.1
  Ends-Sound shop s (err e, t) ends h = rw ends h
  Ends-Sound shop s (ok a, t) ends h =
      let after = Effect-Inv base shop s.work t.work h.0 ends.0 in (after, rw ends.1 after)

  IsOk-IsMild :
      {B : Type 0} (o : Result B × Session)
      → Sound base o.1 × IsOk o.0
      → Sound base o.1 × IsMild o.0
  IsOk-IsMild (ok b, u) k = k
  IsOk-IsMild (err e, u) k = absurd (ground (arith, k.1))

  pub Safe-Mild : {A : Type 0} (m : Action Session A) → Safe m → Mild m
  Safe-Mild m safe s h = IsOk-IsMild (m s) (safe s h)

  pub then-Mild :
      {A B : Type 0} (f : A → Action Session B) (s : Session) (out : Result A × Session)
      → ((a : A) → Safe (f a))
      → Sound base out.1 × IsMild out.0
      → Sound base (((λ _. out) >>= f) s).1 × IsMild (((λ _. out) >>= f) s).0
  then-Mild f s (ok a, t) g h = IsOk-IsMild (f a t) (g a t h.0)
  then-Mild f s (err e, t) g h = h

  skipped-Safe :
      (e : Error) (t : Session)
      → Sound base t × IsMild {A = List Notice} (err e)
      → Sound base (skipped e t).1 × IsOk (skipped e t).0
  skipped-Safe (inventory_error c) t h = (h.0, tt)
  skipped-Safe (order_error c) t h = absurd (ground (arith, h.1))
  skipped-Safe (subscription_error c) t h = absurd (ground (arith, h.1))
  skipped-Safe (catalog_error c) t h = absurd (ground (arith, h.1))
  skipped-Safe (http_error c) t h = absurd (ground (arith, h.1))
  skipped-Safe server_error t h = absurd (ground (arith, h.1))
  skipped-Safe novaposhta_error t h = absurd (ground (arith, h.1))
  skipped-Safe integrity_error t h = absurd (ground (arith, h.1))

  pub skipping-Safe : (m : Action Session (List Notice)) → Mild m → Safe (skipping m)
  skipping-Safe m mild s h = over (m s) (mild s h)
    where
      over :
          (out : Result (List Notice) × Session)
          → Sound base out.1 × IsMild out.0
          → Sound base (unless_raised out).1 × IsOk (unless_raised out).0
      over (ok ns, t) k = (k.0, tt)
      over (err e, t) k = skipped-Safe e t k

-- `pick_up` and `not_picked_up` raise no other error than InventoryError.
abbrev is_inventory : Error → Bool
is_inventory (inventory_error c) = true
is_inventory _ = false

IsMild-of :
    {A : Type 0} (r : Result A) → ((e : Error) → r ≡ err e → is_inventory e ≡ true) → IsMild r
IsMild-of (ok a) h = tt
IsMild-of (err (inventory_error c)) h = tt
IsMild-of (err (order_error c)) h = absurd (ground (arith, h _ refl))
IsMild-of (err (subscription_error c)) h = absurd (ground (arith, h _ refl))
IsMild-of (err (catalog_error c)) h = absurd (ground (arith, h _ refl))
IsMild-of (err (http_error c)) h = absurd (ground (arith, h _ refl))
IsMild-of (err server_error) h = absurd (ground (arith, h _ refl))
IsMild-of (err novaposhta_error) h = absurd (ground (arith, h _ refl))
IsMild-of (err integrity_error) h = absurd (ground (arith, h _ refl))

pub pick_up-IsMild : (now shop id : ℕ) (s : Session) → IsMild (pick_up now shop id true s).0
unfolding pick_up finalize_sale
pick_up-IsMild now shop id s = IsMild-of _ λ e h. ground arith

pub not_picked_up-IsMild :
    (now shop id : ℕ) (s : Session) → IsMild (not_picked_up now shop id "refused" none true s).0
unfolding not_picked_up
not_picked_up-IsMild now shop id s = IsMild-of _ λ e h. ground arith
