-- ===== src/Catalog/Counting.antt =====
-- Counting the rows of a table that pass a test, over an update and over a deletion.
use skladbase.Prelude.{
  ℕ, ◌≤◌, ◌+◌, ◌≡◌, refl, sym, ap, ◌∙◌, inl, inr, Bool, true, false, not, some, List, [], ◌∷◌, ◌==◌,
  arith, keep, length, Bool-cases,
}
use skladbase.Prelude.Tables.{select_one, save, Below, save_absent, select_one-Below}

module _ {A : Type 0} (key : A → ℕ) (q : A → Bool) where
  abbrev pub count : List A → ℕ
  count xs = length (keep q xs)

  abbrev pub without : ℕ → List A → List A
  without k xs = keep (λ x. not (key x == k)) xs

  -- An update that keeps the row's answer to the test keeps the count.
  pub count-save :
      (p : A → Bool) (n : ℕ) (x : A) (xs : List A) {y : A}
      → Below key n xs
      → select_one p xs ≡ some y
      → key x ≡ key y
      → q x ≡ q y
      → count (save key x xs) ≡ count xs
  unfolding select_one save
  count-save p n x [] b e k same = cc
  count-save p n x (z ∷ xs) {y} b e k same = elim (Bool-cases (p z)) [
    | inl here ↦
        let at : z ≡ y = ground arith in
        let rest : save key x xs ≡ xs =
          save_absent key (key z) x xs b.1 (ground (arith, ap key at)) in
        let hit : (key z == key x) ≡ true = ground (arith, ap key at) in
        rw (hit, rest, at)
          (elim (Bool-cases (q x)) [
            | inl t ↦ rw (t, sym same ∙ t) refl
            | inr f ↦ rw (f, sym same ∙ f) refl
          ])
    | inr later ↦
        let found : select_one p xs ≡ some y = ground arith in
        let below = select_one-Below key p (key z) xs b.1 found in
        let miss : (key z == key x) ≡ false = ground arith in
        rw miss (ground (arith, count-save p (key z) x xs b.1 found k same))
  ]

  without_absent : (n k : ℕ) (xs : List A) → Below key n xs → n ≤ k → without k xs ≡ xs
  without_absent n k [] b h = refl
  without_absent n k (x ∷ xs) b h =
      let miss : (key x == k) ≡ false = ground arith in
      rw (miss, without_absent (key x) k xs b.1 (ground arith)) refl

  -- A deletion takes at most one.
  pub count-without : (n k : ℕ) (xs : List A) → Below key n xs → count xs ≤ count (without k xs) + 1
  count-without n k [] b = omega arith
  count-without n k (x ∷ xs) b = elim (Bool-cases (key x == k)) [
    | inl hit ↦ rw (hit, without_absent (key x) k xs b.1 (ground arith)) (ground arith)
    | inr miss ↦ rw miss (ground (arith, count-without (key x) k xs b.1))
  ]

  -- And none, where the row that goes fails the test.
  pub count-without_other :
      (p : A → Bool) (n k : ℕ) (xs : List A) {y : A}
      → Below key n xs
      → select_one p xs ≡ some y
      → key y ≡ k
      → q y ≡ false
      → count (without k xs) ≡ count xs
  unfolding select_one
  count-without_other p n k [] b e h f = cc
  count-without_other p n k (x ∷ xs) {y} b e h f = elim (Bool-cases (p x)) [
    | inl here ↦
        let at : x ≡ y = ground arith in
        let hit : (key x == k) ≡ true = ground (arith, ap key at) in
        let no_count : q x ≡ false = ap q at ∙ f in
        rw (hit, no_count, without_absent (key x) k xs b.1 (ground (arith, ap key at))) refl
    | inr later ↦
        let found : select_one p xs ≡ some y = ground arith in
        let below = select_one-Below key p (key x) xs b.1 found in
        let miss : (key x == k) ≡ false = ground arith in
        rw miss (ground (arith, count-without_other p (key x) k xs b.1 found h f))
  ]
