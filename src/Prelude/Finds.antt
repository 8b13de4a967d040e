-- ===== src/Prelude/Finds.antt =====
-- Looking a row up by its primary key, after rows have come and gone.
use Prim.Native.Nat.{ℕ, ◌<◌}
use mathlib.Core.Path.{◌≡◌, refl, subst}
use mathlib.Core.Logic.{◌≢◌, inl, inr}
use mathlib.Core.Bool.{false, not}
use mathlib.Core.Option.{some}
use mathlib.Core.List.{List, [], ◌∷◌}
use native.Mathlib.Omega.{arith}
use skladbase.Prelude.Tests.{◌==◌, Bool-cases}
use skladbase.Prelude.Lists.{All, All-imp, keep}
use skladbase.Prelude.Tables.{find, Below, Below-mono}

module _ {A : Type 0} (key : A → ℕ) where
  abbrev pub without : ℕ → List A → List A
  without k xs = keep (λ x. not (key x == k)) xs

  pub find-key : (k : ℕ) (xs : List A) {y : A} → find key k xs ≡ some y → key y ≡ k
  unfolding find
  find-key k [] e = cc
  find-key k (x ∷ xs) {y} e = ground (arith, find-key k xs {y = y})

  pub find-Below : (n k : ℕ) (xs : List A) {y : A} → Below key n xs → find key k xs ≡ some y → k < n
  unfolding find
  find-Below n k [] b e = cc
  find-Below n k (x ∷ xs) {y} b e = elim (Bool-cases (key x == k)) [
    | inl t ↦ ground arith
    | inr f ↦ ground (arith, find-Below (key x) k xs {y = y} b.1)
  ]

  pub find_under :
      (k : ℕ) (x : A) (xs : List A) {y : A}
      → k < key x
      → find key k xs ≡ some y
      → find key k (x ∷ xs) ≡ some y
  unfolding find
  find_under k x xs h e = ground (arith, e)

  pub find-without : (k j : ℕ) (xs : List A) → k ≢ j → find key k (without j xs) ≡ find key k xs
  unfolding find
  find-without k j [] ne = refl
  find-without k j (x ∷ xs) ne = elim (Bool-cases (key x == j)) [
    | inl hit ↦
        let miss : (key x == k) ≡ false = ground arith in rw (hit, miss) (find-without k j xs ne)
    | inr other ↦ rw (other, find-without k j xs ne) refl
  ]

  pub without-Below : (n j : ℕ) (xs : List A) → Below key n xs → Below key n (without j xs)
  without-Below n j [] b = tt
  without-Below n j (x ∷ xs) b = elim (Bool-cases (key x == j)) [
    | inl hit ↦
        rw hit (Below-mono key (without j xs) (omega (arith, b.0)) (without-Below (key x) j xs b.1))
    | inr other ↦ rw other (b.0, without-Below (key x) j xs b.1)
  ]

  Below-All : (n : ℕ) (xs : List A) → Below key n xs → All (λ x. key x < n) xs
  Below-All n [] b = tt
  Below-All n (x ∷ xs) b =
      (b.0, All-imp _ _ xs (Below-All (key x) xs b.1) (λ y h. omega (arith, b.0)))

  -- Each row is found by its key.
  pub All-found :
      (n : ℕ) (xs : List A) → Below key n xs → All (λ x. find key (key x) xs ≡ some x) xs
  unfolding find
  All-found n [] b = tt
  All-found n (x ∷ xs) b =
      (ground arith, still xs (Below-All (key x) xs b.1) (All-found (key x) xs b.1))
    where
      still :
          (ys : List A)
          → All (λ y. key y < key x) ys
          → All (λ y. find key (key y) xs ≡ some y) ys
          → All (λ y. find key (key y) (x ∷ xs) ≡ some y) ys
      still [] h k = tt
      still (y ∷ ys) h k = (find_under (key y) x xs h.0 k.0, still ys h.1 k.1)

  -- What holds of all rows holds of the one that is found.
  pub All-find {κ} :
      (P : A → Type κ) (k : ℕ) (xs : List A) {x : A} → All P xs → find key k xs ≡ some x → P x
  unfolding find
  All-find P k [] h e = cc
  All-find P k (y ∷ xs) {x} h e = elim (Bool-cases (key y == k)) [
    | inl t ↦ subst P (ground arith) h.0
    | inr f ↦ All-find P k xs h.1 (ground arith)
  ]
