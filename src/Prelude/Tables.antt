-- ===== src/Prelude/Tables.antt =====
-- Tables of rows with a numeric primary key, newest first: a query for one row, an update of the
-- row with a given key, and sums over the rows.
use Prim.Native.Nat.{ℕ, ◌≤◌, ◌<◌}
use mathlib.Core.Path.{◌≡◌, refl, subst, ap}
use mathlib.Core.Logic.{◌≢◌, inl, inr}
use mathlib.Core.Bool.{Bool, true, false}
use mathlib.Core.Option.{Option, none, some}
use mathlib.Core.List.{List, [], ◌∷◌}
use native.Mathlib.Omega.{arith}
use skladbase.Prelude.Tests.{◌==◌, if◌then◌else◌, Bool-cases}
use skladbase.Prelude.Lists.{All}
use skladbase.Prelude.Int.{ℤ, pos, ◌+ℤ◌, +ℤ_under, int_laws}

module _ {ℓ} {A : Type ℓ} where
  -- `session.scalar(select(A).where(p))`: the row that passes the test, if there is one
  unfoldable pub select_one : (A → Bool) → List A → Option A
  select_one p [] = none
  select_one p (x ∷ xs) = if p x then some x else select_one p xs

  pub select_one-test : (p : A → Bool) (xs : List A) {x : A} → select_one p xs ≡ some x → p x ≡ true
  unfolding select_one
  select_one-test p [] e = cc
  select_one-test p (y ∷ xs) {x} e = ground (arith, select_one-test p xs {x = x})

  -- What holds of all rows holds of the one that is found.
  pub All-select_one {κ} :
      (P : A → Type κ) (p : A → Bool) (xs : List A) {x : A}
      → All P xs
      → select_one p xs ≡ some x
      → P x
  unfolding select_one
  All-select_one P p [] h e = cc
  All-select_one P p (y ∷ xs) {x} h e = elim (Bool-cases (p y)) [
    | inl t ↦ subst P (ground arith) h.0
    | inr f ↦ All-select_one P p xs h.1 (ground arith)
  ]

module _ {A : Type 0} (key : A → ℕ) where
  -- the row with a given primary key
  unfoldable pub find : ℕ → List A → Option A
  find k [] = none
  find k (x ∷ xs) = if key x == k then some x else find k xs

  -- `UPDATE … WHERE id = …`: the row with the key of `x` becomes `x`
  unfoldable pub save : A → List A → List A
  save x [] = []
  save x (y ∷ ys) = (if key y == key x then x else y) ∷ save x ys

  -- The keys fall along the table and stay under the bound, as a sequence hands them out.
  abbrev pub Below : ℕ → List A → Type 0
  Below n [] = Unit {0}
  Below n (x ∷ xs) = (key x < n) × Below (key x) xs

  pub All-save {κ μ} :
      (P : A → Type κ) (Q : A → Type μ) (x : A) (xs : List A)
      → All P xs
      → ((y : A) → key y ≢ key x → P y → Q y)
      → Q x
      → All Q (save x xs)
  unfolding save
  All-save P Q x [] h other q = tt
  All-save P Q x (y ∷ ys) h other q = elim (Bool-cases (key y == key x)) [
    | inl t ↦ rw t (q, All-save P Q x ys h.1 other q)
    | inr f ↦ rw f (other y (ground arith) h.0, All-save P Q x ys h.1 other q)
  ]

  pub Below-mono : {m n : ℕ} (xs : List A) → m ≤ n → Below m xs → Below n xs
  Below-mono [] h b = tt
  Below-mono (x ∷ xs) h b = (omega arith, b.1)

  pub Below-save : (n : ℕ) (x : A) (xs : List A) → Below n xs → Below n (save x xs)
  unfolding save
  Below-save n x [] b = tt
  Below-save n x (y ∷ ys) b = elim (Bool-cases (key y == key x)) [
    | inl t ↦ rw t (
      ground arith,
      subst (λ k. Below k (save x ys)) (ground arith) (Below-save (key y) x ys b.1),
    )
    | inr f ↦ rw f (b.0, Below-save (key y) x ys b.1)
  ]

  pub save_absent : (n : ℕ) (x : A) (xs : List A) → Below n xs → n ≤ key x → save x xs ≡ xs
  unfolding save
  save_absent n x [] b h = refl
  save_absent n x (y ∷ ys) b h = ground (arith, save_absent (key y) x ys b.1)

  pub select_one-Below :
      (p : A → Bool) (n : ℕ) (xs : List A) {x : A}
      → Below n xs
      → select_one p xs ≡ some x
      → key x < n
  unfolding select_one
  select_one-Below p n [] b e = cc
  select_one-Below p n (y ∷ xs) {x} b e = ground (arith, select_one-Below p (key y) xs {x = x} b.1)

  pub find-save :
      (k : ℕ) (x : A) (xs : List A) {y : A}
      → find k xs ≡ some y
      → find k (save x xs) ≡ (if key x == k then some x else some y)
  unfolding find save
  find-save k x [] e = cc
  find-save k x (z ∷ xs) {y} e = elim (Bool-cases (key z == key x)) [
    | inl t ↦ rw t (ground (arith, find-save k x xs {y = y}))
    | inr f ↦ rw f (ground (arith, find-save k x xs {y = y}))
  ]

-- The sum of a quantity over the rows.
module _ {A : Type 0} where
  unfoldable pub total : (A → ℤ) → List A → ℤ
  total f [] = pos 0
  total f (x ∷ xs) = f x +ℤ total f xs

module _ {A : Type 0} (key : A → ℕ) (f : A → ℤ) where
  -- An update of one row moves the sum by that row's change.
  pub total-save :
      (p : A → Bool) (n : ℕ) (x : A) (xs : List A) {y : A}
      → Below key n xs
      → select_one p xs ≡ some y
      → key x ≡ key y
      → total f (save key x xs) +ℤ f y ≡ total f xs +ℤ f x
  unfolding select_one save total
  total-save p n x [] b e k = cc
  total-save p n x (z ∷ xs) {y} b e k = elim (Bool-cases (p z)) [
    | inl here ↦
        let same : z ≡ y = ground arith in
        let rest : save key x xs ≡ xs =
          save_absent key (key z) x xs b.1 (ground (arith, ap key same)) in
        let hit : (key z == key x) ≡ true = ground (arith, ap key same) in
        rw (hit, rest, same) (omega int_laws)
    | inr later ↦
        let found : select_one p xs ≡ some y = ground arith in
        let below : key y < key z = select_one-Below key p (key z) xs b.1 found in
        let miss : (key z == key x) ≡ false = ground arith in
        rw miss (+ℤ_under (f z) _ _ (f x) (f y) (total-save p (key z) x xs b.1 found k))
  ]
