-- ===== src/Prelude/Updates.antt =====
-- A loop that updates the rows that a query selected, one after another.
use Prim.Native.Nat.{ℕ, ◌<◌}
use mathlib.Core.Path.{◌≡◌, refl, sym, ◌∙◌, ap, subst}
use mathlib.Core.Logic.{inl, inr}
use mathlib.Core.Bool.{Bool, true, false}
use mathlib.Core.Option.{Option, none, some}
use mathlib.Core.List.{List, [], ◌∷◌, map}
use native.Mathlib.Omega.{arith}
use skladbase.Prelude.Tests.{◌==◌, if◌then◌else◌, Bool-cases, is_some}
use skladbase.Prelude.Lists.{All, keep}
use skladbase.Prelude.Tables.{save, Below, Below-mono, save_absent}

pub some-of : {A : Type 0} (o : Option A) → is_some o ≡ true → (a : A) × (o ≡ some a)
some-of none h = cc
some-of (some a) h = (a, refl)

-- The first row of a selection passes the test.
pub keep-head :
    {A : Type 0} (t : A → Bool) (xs : List A) {x : A} {rest : List A}
    → keep t xs ≡ x ∷ rest
    → t x ≡ true
keep-head t [] e = cc
keep-head t (y ∷ xs) {x} {rest} e = ground (arith, keep-head t xs {x = x} {rest = rest})

-- What a test selects passes it.
pub All-keep : {A : Type 0} (p : A → Bool) (xs : List A) → All (λ x. p x ≡ true) (keep p xs)
All-keep p [] = tt
All-keep p (x ∷ xs) = elim (Bool-cases (p x)) [
  | inl t ↦ rw t (t, All-keep p xs)
  | inr f ↦ rw f (All-keep p xs)
]

-- What holds of all rows holds of those that a test selects.
pub All-kept :
    {A : Type 0} (P : A → Type 0) (p : A → Bool) (xs : List A) → All P xs → All P (keep p xs)
All-kept P p [] h = tt
All-kept P p (x ∷ xs) h = elim (Bool-cases (p x)) [
  | inl t ↦ rw t (h.0, All-kept P p xs h.1)
  | inr f ↦ rw f (All-kept P p xs h.1)
]

-- Once the selected rows are changed so that they fail the test, it selects none.
pub keep-map_none :
    {A : Type 0} (p : A → Bool) (f : A → A) (xs : List A)
    → ((x : A) → p x ≡ true → p (f x) ≡ false)
    → keep p (map (λ x. if p x then f x else x) xs) ≡ []
keep-map_none p f [] h = refl
keep-map_none p f (x ∷ xs) h = elim (Bool-cases (p x)) [
  | inl t ↦ rw (t, h x t) (keep-map_none p f xs h)
  | inr e ↦ rw (e, e) (keep-map_none p f xs h)
]

module _ {A : Type 0} (key : A → ℕ) where
  -- A row written twice is as it was written last.
  pub save-save :
      (x y : A) (xs : List A) → key x ≡ key y → save key x (save key y xs) ≡ save key x xs
  unfolding save
  save-save x y [] e = refl
  save-save x y (z ∷ zs) e = elim (Bool-cases (key z == key y)) [
    | inl hit ↦
        let hit' : (key z == key x) ≡ true = ground (arith, e) in
        let top : (key y == key x) ≡ true = ground (arith, e) in
        rw (hit, hit', top, save-save x y zs e) refl
    | inr miss ↦ rw (miss, save-save x y zs e) refl
  ]

  module _ (f : A → A) where
    -- the updates of the rows of a list, first to last
    unfoldable pub save_each : List A → List A → List A
    save_each [] table = table
    save_each (y ∷ ys) table = save_each ys (save key (f y) table)

    keep_under :
        (p : A → Bool) (n : ℕ) (xs : List A) → Below key n xs → All (λ y. key y < n) (keep p xs)
    keep_under p n [] b = tt
    keep_under p n (x ∷ xs) b =
        let rest = keep_under p n xs (Below-mono key xs (omega (arith, b.0)) b.1) in
        elim (Bool-cases (p x)) [ inl t ↦ rw t (b.0, rest) | inr e ↦ rw e rest ]

    save_each-skip :
        (z : A) (ys zs : List A)
        → ((x : A) → key (f x) ≡ key x)
        → All (λ y. key y < key z) ys
        → save_each ys (z ∷ zs) ≡ z ∷ save_each ys zs
    unfolding save_each save
    save_each-skip z [] zs keeps h = refl
    save_each-skip z (y ∷ ys) zs keeps h =
        let miss : (key z == key (f y)) ≡ false = ground (arith, keeps y, h.0) in
        rw miss (save_each-skip z ys (save key (f y) zs) keeps h.1)

    save_each-hit :
        (x : A) (ys xs : List A)
        → ((x : A) → key (f x) ≡ key x)
        → Below key (key x) xs
        → All (λ y. key y < key x) ys
        → save_each (x ∷ ys) (x ∷ xs) ≡ f x ∷ save_each ys xs
    unfolding save_each save
    save_each-hit x ys xs keeps b under =
        let hit : (key x == key (f x)) ≡ true = ground (arith, keeps x) in
        let alone : save key (f x) xs ≡ xs =
          save_absent key (key x) (f x) xs b (ground (arith, keeps x)) in
        let under' : All (λ y. key y < key (f x)) ys =
          subst (λ k. All (λ y. key y < k) ys) (sym (keeps x)) under in
        rw (hit, alone) (save_each-skip (f x) ys xs keeps under')

    -- The loop over the rows that a test selects is an update of every such row.
    pub save_each-map :
        (p : A → Bool) (n : ℕ) (xs : List A)
        → ((x : A) → key (f x) ≡ key x)
        → Below key n xs
        → save_each (keep p xs) xs ≡ map (λ x. if p x then f x else x) xs
    unfolding save_each
    save_each-map p n [] keeps b = refl
    save_each-map p n (x ∷ xs) keeps b =
        let rest = save_each-map p (key x) xs keeps b.1 in
        let under = keep_under p (key x) xs b.1 in
        elim (Bool-cases (p x)) [
          | inl t ↦ rw t (save_each-hit x (keep p xs) xs keeps b.1 under ∙ ap (λ ys. f x ∷ ys) rest)
          | inr e ↦ rw e (save_each-skip x (keep p xs) xs keeps under ∙ ap (λ ys. x ∷ ys) rest)
        ]
