-- ===== src/Inventory/Lifecycle.antt =====
-- The life of a reservation: what a history of requests can make of it.
use skladbase.Prelude.{
  ℕ, ◌≡◌, refl, ◌∙◌, inl, inr, some, true, List, [], ◌∷◌, ◌==◌, arith, Bool, false, Bool-cases,
  subst, ◌<◌,
}
use skladbase.Prelude.Int.{ℤ}
use skladbase.Prelude.Tables.{find, save, select_one, select_one-test, find-save, Below}
use skladbase.Prelude.Selections.{find-select_one, find-Below}
use skladbase.Models.{Reservation, ReservationStatus, Db}
use skladbase.Inventory.Tables.{owns_reservation}
use skladbase.Inventory.Effect.{
  Effect, opened, moved, passed, stocked, Advances, Transition, releases, fulfills, ships, picks_up,
  returns, relabels,
}
use skladbase.Inventory.Invariant.{Inv}
use skladbase.Inventory.Calls.{Call, request, Request, history}
use skladbase.Inventory.History.{request-Effect, request-Inv}

-- Zero or more transitions.
pub data Reaches (s : ReservationStatus) : ReservationStatus → Type 0 where
  here : Reaches s s
  next : {t u : ReservationStatus} → Reaches s t → Transition t u → Reaches s u

-- The same reservation at a later time.
pub record Later (r q : Reservation) : Type 0 where
  pub same_id : q.id ≡ r.id
  pub same_shop : q.shop_id ≡ r.shop_id
  pub same_variant : q.variant_id ≡ r.variant_id
  pub same_qty : q.qty ≡ r.qty
  pub life : Reaches r.status q.status

Later-refl : (r : Reservation) → Later r r
Later-refl r = record {
  same_id = refl;
  same_shop = refl;
  same_variant = refl;
  same_qty = refl;
  life = here;
}

Reaches-trans : {s t u : ReservationStatus} → Reaches s t → Reaches t u → Reaches s u
Reaches-trans a here = a
Reaches-trans a (next b step) = next (Reaches-trans a b) step

Later-trans : {p q r : Reservation} → Later p q → Later q r → Later p r
Later-trans a b = record {
  same_id = b.same_id ∙ a.same_id;
  same_shop = b.same_shop ∙ a.same_shop;
  same_variant = b.same_variant ∙ a.same_variant;
  same_qty = b.same_qty ∙ a.same_qty;
  life = Reaches-trans a.life b.life;
}

Later-advance : {r q : Reservation} → Advances r q → Later r q
Later-advance a = record {
  same_id = a.same_id;
  same_shop = a.same_shop;
  same_variant = a.same_variant;
  same_qty = a.same_qty;
  life = next here a.step;
}

abbrev pub Survives : ℕ → Reservation → List Reservation → Type 0
Survives k r rs = (q : Reservation) × (find Reservation.id k rs ≡ some q) × Later r q

find_older :
    (k : ℕ) (x : Reservation) (rs : List Reservation)
    → k < x.id
    → find Reservation.id k (x ∷ rs) ≡ find Reservation.id k rs
unfolding find
find_older k x rs h = ground arith

save-Survives :
    (k shop id n : ℕ) (r x y : Reservation) (rs : List Reservation)
    → Below Reservation.id n rs
    → find Reservation.id k rs ≡ some r
    → select_one (owns_reservation shop id) rs ≡ some x
    → Advances x y
    → Survives k r (save Reservation.id y rs)
save-Survives k shop id n r x y rs b e ex ad = elim (Bool-cases (y.id == k)) [
  | inr other ↦ (r, find-save Reservation.id k y rs e ∙ rw other refl, Later-refl r)
  | inl hit ↦
      let at_id : x.id ≡ id = ground (arith, select_one-test (owns_reservation shop id) rs ex) in
      let at_k : find Reservation.id id rs ≡ some x =
        find-select_one Reservation.id (owns_reservation shop id) id n rs (λ z t. ground arith) b
          ex in
      let same_key : id ≡ k = ground (arith, at_id, ad.same_id) in
      let same : x ≡ r =
        ground (arith, subst (λ j. find Reservation.id j rs ≡ some x) same_key at_k) in
      (
        y,
        find-save Reservation.id k y rs e ∙ rw hit refl,
        subst (λ z. Later z y) same (Later-advance ad),
      )
]

Effect-Survives :
    (base : ℕ → ℤ) (shop : ℕ) (a b : Db) (k : ℕ) (r : Reservation)
    → Inv base a
    → find Reservation.id k a.reservations ≡ some r
    → Effect shop a b
    → Survives k r b.reservations
Effect-Survives base shop a b k r inv e (opened v w x ms ev o js eq) =
    let below : k < a.next_reservation =
      find-Below Reservation.id k a.next_reservation a.reservations inv.numbered e in
    rw eq (r, find_older k x a.reservations (omega (arith, o.numbered)) ∙ e, Later-refl r)
Effect-Survives base shop a b k r inv e (moved d id v w x q ms er ev mv js eq) =
    rw eq (
      save-Survives k shop id a.next_reservation r x q a.reservations inv.numbered e er mv.advances)
Effect-Survives base shop a b k r inv e (passed d id x q ms er pa js eq) =
    rw eq (
      save-Survives k shop id a.next_reservation r x q a.reservations inv.numbered e er pa.advances)
Effect-Survives base shop a b k r inv e (stocked d id v w ms ev st js eq) =
    rw eq (r, e, Later-refl r)

request-Survives :
    (base : ℕ → ℤ) (now shop : ℕ) (c : Call) (d : Db) (k : ℕ) (r : Reservation)
    → Inv base d
    → find Reservation.id k d.reservations ≡ some r
    → Survives k r (request now shop c d).reservations
request-Survives base now shop c d k r inv e = elim (request-Effect now shop c d) [
  | inl same ↦ rw same (r, e, Later-refl r)
  | inr effect ↦ Effect-Survives base shop d _ k r inv e effect
]

-- Through any history of requests from sound tables a reservation stays in its table with its shop, its variant and
-- its quantity, and its status goes only along the transitions of its life.
pub history-Later :
    (base : ℕ → ℤ) (qs : List Request) (d : Db) (k : ℕ) (r : Reservation)
    → Inv base d
    → find Reservation.id k d.reservations ≡ some r
    → Survives k r (history qs d).reservations
unfolding history
history-Later base [] d k r inv e = (r, e, Later-refl r)
history-Later base (q ∷ qs) d k r inv e =
    let d' : Db = request q.at q.shop q.what d in
    let (r', e', later) = request-Survives base q.at q.shop q.what d k r inv e in
    let (r'', e'', later') =
      history-Later base qs d' k r' (request-Inv base q.at q.shop q.what d inv) e' in
    (r'', e'', Later-trans later later')

abbrev pub is_final : ReservationStatus → Bool
is_final ReservationStatus.fulfilled = true
is_final ReservationStatus.released = true
is_final _ = false

Transition-final : {s t : ReservationStatus} → Transition s t → is_final s ≡ true → t ≡ s
Transition-final releases f = cc
Transition-final fulfills f = cc
Transition-final ships f = cc
Transition-final picks_up f = cc
Transition-final returns f = cc
Transition-final relabels f = cc

Reaches-final : {s t : ReservationStatus} → is_final s ≡ true → Reaches s t → t ≡ s
Reaches-final f here = refl
Reaches-final f (next r step) = let e = Reaches-final f r in Transition-final step (rw e f) ∙ e

-- From sound tables a reservation that is sold or released stays so, with its quantity, through any
-- history of requests.
pub history-final :
    (base : ℕ → ℤ) (qs : List Request) (d : Db) (k : ℕ) (r : Reservation)
    → Inv base d
    → find Reservation.id k d.reservations ≡ some r
    → is_final r.status ≡ true
    → (q : Reservation) × (find Reservation.id k (history qs d).reservations ≡ some q)
      × (q.status ≡ r.status)
      × (q.qty ≡ r.qty)
history-final base qs d k r inv e final =
    let (q, eq, later) = history-Later base qs d k r inv e in
    (q, eq, Reaches-final final later.life, later.same_qty)
