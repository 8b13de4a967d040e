-- ===== src/Prelude/Selections.antt =====
-- Parts of a table that a test selects, and how an update of one row changes them.
use Prim.Native.Nat.{ℕ, ◌<◌}
use mathlib.Core.Path.{◌≡◌, refl, subst, ap, sym}
use mathlib.Core.Logic.{inl, inr}
use mathlib.Core.Bool.{Bool, true, false}
use mathlib.Core.Option.{some}
use mathlib.Core.List.{List, [], ◌∷◌}
use native.Mathlib.Omega.{arith}
use skladbase.Prelude.Tests.{◌==◌, Bool-cases, is_some}
use skladbase.Prelude.Lists.{All, keep}
use skladbase.Prelude.Int.{ℤ, pos, ◌≤ℤ◌, int_laws, parts}
use skladbase.Prelude.Tables.{select_one, find, save, Below, save_absent, select_one-Below, total}

-- An update of a row that a part of the table leaves out leaves that part alone.
module _ {A : Type 0} (key : A → ℕ) where
  pub keep-save :
      (q p : A → Bool) (n : ℕ) (x : A) (xs : List A) {y : A}
      → Below key n xs
      → select_one p xs ≡ some y
      → key x ≡ key y
      → q x ≡ false
      → q y ≡ false
      → keep q (save key x xs) ≡ keep q xs
  unfolding select_one save
  keep-save q p n x [] b e k qx qy = cc
  keep-save q p n x (z ∷ xs) {y} b e k qx qy = elim (Bool-cases (p z)) [
    | inl here ↦
        let same : z ≡ y = ground arith in
        let rest : save key x xs ≡ xs =
          save_absent key (key z) x xs b.1 (ground (arith, ap key same)) in
        let hit : (key z == key x) ≡ true = ground (arith, ap key same) in
        rw (hit, rest, same, qx, qy) refl
    | inr later ↦
        let found : select_one p xs ≡ some y = ground arith in
        let below : key y < key z = select_one-Below key p (key z) xs b.1 found in
        let miss : (key z == key x) ≡ false = ground arith in
        rw (miss, keep-save q p (key z) x xs b.1 found k qx qy) refl
  ]

  pub find-Below : (k n : ℕ) (xs : List A) {x : A} → Below key n xs → find key k xs ≡ some x → k < n
  unfolding find
  find-Below k n [] b e = cc
  find-Below k n (y ∷ xs) {x} b e = ground (arith, find-Below k (key y) xs {x = x} b.1)

  -- A query by the key and a further test is the look-up by the key.
  pub find-select_one :
      (p : A → Bool) (k n : ℕ) (xs : List A) {x : A}
      → ((y : A) → p y ≡ true → key y ≡ k)
      → Below key n xs
      → select_one p xs ≡ some x
      → find key k xs ≡ some x
  unfolding find select_one
  find-select_one p k n [] keyed b e = cc
  find-select_one p k n (y ∷ xs) {x} keyed b e = elim (Bool-cases (p y)) [
    | inl here ↦ ground (arith, keyed y here)
    | inr later ↦
        let found : select_one p xs ≡ some x = ground arith in
        let rest = find-select_one p k (key y) xs keyed b.1 found in
        ground (arith, find-Below k (key y) xs b.1 rest, rest)
  ]

  -- The first row that a test selects.
  keep-Below :
      (t : A → Bool) (n : ℕ) (xs : List A) {x : A} {rest : List A}
      → Below key n xs
      → keep t xs ≡ x ∷ rest
      → key x < n
  keep-Below t n [] b e = cc
  keep-Below t n (y ∷ xs) {x} {rest} b e = elim (Bool-cases (t y)) [
    | inl hit ↦ let same : y ≡ x = ground arith in ground (arith, ap key same)
    | inr miss ↦
        let below : key x < key y = keep-Below t (key y) xs {rest = rest} b.1 (ground arith) in
        omega arith
  ]

  pub select_one-keep :
      (t p : A → Bool) (n : ℕ) (xs : List A) {x : A} {rest : List A}
      → Below key n xs
      → p x ≡ true
      → ((y : A) → p y ≡ true → key y ≡ key x)
      → keep t xs ≡ x ∷ rest
      → select_one p xs ≡ some x
  unfolding select_one
  select_one-keep t p n [] b px keyed e = cc
  select_one-keep t p n (y ∷ xs) {x} {rest} b px keyed e = elim (Bool-cases (t y)) [
    | inl hit ↦
        let same : y ≡ x = ground arith in rw (subst (λ z. p z ≡ true) (sym same) px) (ap some same)
    | inr miss ↦
        let kept : keep t xs ≡ x ∷ rest = ground arith in
        let below : key x < key y = keep-Below t (key y) xs b.1 kept in
        ground (arith, keyed y, select_one-keep t p (key y) xs b.1 px keyed kept)
  ]

  -- Once its first row is updated so that the test leaves it out, the others are selected.
  pub keep-save_head :
      (t : A → Bool) (n : ℕ) (q : A) (xs : List A) {x : A} {rest : List A}
      → Below key n xs
      → key q ≡ key x
      → t q ≡ false
      → keep t xs ≡ x ∷ rest
      → keep t (save key q xs) ≡ rest
  unfolding save
  keep-save_head t n q [] b k tq e = cc
  keep-save_head t n q (y ∷ xs) {x} {rest} b k tq e = elim (Bool-cases (t y)) [
    | inl hit ↦
        let same : y ≡ x = ground arith in
        let here : (key y == key q) ≡ true = ground (arith, ap key same) in
        let absent : save key q xs ≡ xs =
          save_absent key (key y) q xs b.1 (ground (arith, ap key same)) in
        rw (here, tq, absent) (ground arith)
    | inr miss ↦
        let kept : keep t xs ≡ x ∷ rest = ground arith in
        let below : key x < key y = keep-Below t (key y) xs b.1 kept in
        let other : (key y == key q) ≡ false = ground arith in
        rw (other, miss) (keep-save_head t (key y) q xs b.1 k tq kept)
  ]

  -- A query that found a row finds one after an update that keeps what the test looks at.
  pub select_one-save :
      (p : A → Bool) (x : A) (xs : List A)
      → ((y : A) → key y ≡ key x → p y ≡ true → p x ≡ true)
      → is_some (select_one p xs) ≡ true
      → is_some (select_one p (save key x xs)) ≡ true
  unfolding select_one save
  select_one-save p x [] stays e = cc
  select_one-save p x (y ∷ ys) stays e = elim (Bool-cases (key y == key x)) [
    | inl hit ↦ rw hit (ground (arith, stays y, select_one-save p x ys stays))
    | inr miss ↦ rw miss (ground (arith, select_one-save p x ys stays))
  ]

  -- The row that a query finds, updated so that it still passes the test, is found again.
  pub select_one-saved :
      (p : A → Bool) (n : ℕ) (x : A) (xs : List A) {y : A}
      → Below key n xs
      → select_one p xs ≡ some y
      → key x ≡ key y
      → p x ≡ true
      → select_one p (save key x xs) ≡ some x
  unfolding select_one save
  select_one-saved p n x [] b e k px = cc
  select_one-saved p n x (z ∷ xs) {y} b e k px = elim (Bool-cases (p z)) [
    | inl here ↦
        let same : z ≡ y = ground arith in
        let hit : (key z == key x) ≡ true = ground (arith, ap key same) in rw (hit, px) refl
    | inr later ↦
        let found : select_one p xs ≡ some y = ground arith in
        let below : key y < key z = select_one-Below key p (key z) xs b.1 found in
        let miss : (key z == key x) ≡ false = ground arith in
        rw (miss, later) (select_one-saved p (key z) x xs b.1 found k px)
  ]

-- A sum of quantities, none of them negative, is at least each of them.
module _ {A : Type 0} (f : A → ℤ) where
  total_nonneg : (xs : List A) → All (λ x. pos 0 ≤ℤ f x) xs → pos 0 ≤ℤ total f xs
  unfolding total
  total_nonneg [] h = omega arith
  total_nonneg (x ∷ xs) h = omega (int_laws, total_nonneg xs h.1)

  pub le-total :
      (p : A → Bool) (xs : List A) {x : A}
      → All (λ x. pos 0 ≤ℤ f x) xs
      → select_one p xs ≡ some x
      → f x ≤ℤ total f xs
  unfolding total select_one
  le-total p [] h e = cc
  le-total p (y ∷ ys) {x} h e = elim (Bool-cases (p y)) [
    | inl here ↦
        let same : y ≡ x = ground arith in omega (int_laws, parts (ap f same), total_nonneg ys h.1)
    | inr later ↦ omega (int_laws, le-total p ys {x = x} h.1 (ground arith))
  ]
