-- ===== src/Inventory/Invariant/Counts.antt =====
-- The definitions of the invariant of the stock tables, and how its sums move.
use skladbase.Prelude.{
  ℕ, ◌≡◌, ◌≢◌, refl, sym, ◌∙◌, Bool, some, List, ◌==◌, if◌then◌else◌, arith, All,
}
use skladbase.Prelude.Int.{ℤ, pos, ◌+ℤ◌, ◌≤ℤ◌, int_laws, parts}
use skladbase.Prelude.Tables.{select_one, save, total, total-save, Below}
use skladbase.Models.{Variant, Reservation, ReservationStatus, StockMovement, Db}
use skladbase.Inventory.Effect.{held, away, goods, Journals, nothing, one}

-- What a reservation holds of, or carries of, a variant; what a movement counts of it.
abbrev pub held_of : ℕ → Reservation → ℤ
held_of k r = if r.variant_id == k then held r.status r.qty else pos 0

abbrev pub away_of : ℕ → Reservation → ℤ
away_of k r = if r.variant_id == k then away r.status r.qty else pos 0

abbrev pub goods_of : ℕ → StockMovement → ℤ
goods_of k m = if m.variant_id == k then goods m.type_of m.delta else pos 0

-- The counts of the variant with key `k`; `base` is the stock that a variant had before its first
-- movement.
pub record Counted (base : ℕ → ℤ) (rs : List Reservation) (ms : List StockMovement) (k : ℕ)
    (v : Variant) : Type 0 where
  pub fits : v.reserved ≤ℤ v.on_hand
  pub set_aside : v.reserved ≡ total (held_of k) rs
  pub balanced : v.on_hand +ℤ total (away_of k) rs ≡ base k +ℤ total (goods_of k) ms

pub record Inv (base : ℕ → ℤ) (d : Db) : Type 0 where
  pub numbered : Below Reservation.id d.next_reservation d.reservations
  pub positive : All (λ r. pos 1 ≤ℤ r.qty) d.reservations
  pub counted : All (λ v. Counted base d.reservations d.movements v.id v) d.variants

-- What a row counts of its own variant, and of another one.
pub held_own : (r : Reservation) (k : ℕ) → r.variant_id ≡ k → held_of k r ≡ held r.status r.qty
held_own r k e = ground arith

pub held_other : (r : Reservation) (k : ℕ) → k ≢ r.variant_id → held_of k r ≡ pos 0
held_other r k ne = ground arith

pub away_own : (r : Reservation) (k : ℕ) → r.variant_id ≡ k → away_of k r ≡ away r.status r.qty
away_own r k e = ground arith

pub away_other : (r : Reservation) (k : ℕ) → k ≢ r.variant_id → away_of k r ≡ pos 0
away_other r k ne = ground arith

-- The journal of goods after a call of `_record_movement`.
pub goods-Journals :
    (shop k : ℕ) (d : ℤ) (old new : List StockMovement)
    → Journals shop k d old new
    → total (goods_of k) new ≡ total (goods_of k) old +ℤ d
unfolding total
goods-Journals shop k d old new (nothing e z) = rw (e, z) (omega int_laws)
goods-Journals shop k d old new (one m e own of counts) = rw e (grind (int_laws, parts counts))

pub goods-Journals_other :
    (shop k j : ℕ) (d : ℤ) (old new : List StockMovement)
    → j ≢ k
    → Journals shop k d old new
    → total (goods_of j) new ≡ total (goods_of j) old
unfolding total
goods-Journals_other shop k j d old new ne (nothing e z) = rw e refl
goods-Journals_other shop k j d old new ne (one m e own of counts) = rw e (grind int_laws)

-- A sum over the reservations, after an update that leaves this sum's share of the row alone.
pub total_same :
    (f : Reservation → ℤ) (p : Reservation → Bool) (n : ℕ) (q : Reservation) (rs : List Reservation)
    {r : Reservation}
    → Below Reservation.id n rs
    → select_one p rs ≡ some r
    → q.id ≡ r.id
    → f q ≡ f r
    → total f (save Reservation.id q rs) ≡ total f rs
total_same f p n q rs b e i same =
    omega (int_laws, parts (total-save Reservation.id f p n q rs b e i), parts same)

-- The row of another variant, where its three sums have stayed.
pub Counted_kept :
    (base : ℕ → ℤ) {rs rs' : List Reservation} {ms ms' : List StockMovement} (k : ℕ) (w : Variant)
    → total (held_of k) rs' ≡ total (held_of k) rs
    → total (away_of k) rs' ≡ total (away_of k) rs
    → total (goods_of k) ms' ≡ total (goods_of k) ms
    → Counted base rs ms k w
    → Counted base rs' ms' k w
Counted_kept base k w h a g c = record {
  fits = c.fits;
  set_aside = c.set_aside ∙ sym h;
  balanced = rw (a, g) c.balanced;
}

pub begun_held :
    (r : Reservation) → r.status ≡ ReservationStatus.active → held r.status r.qty ≡ r.qty
begun_held r e = rw e refl

pub begun_away :
    (r : Reservation) → r.status ≡ ReservationStatus.active → away r.status r.qty ≡ pos 0
begun_away r e = rw e refl
