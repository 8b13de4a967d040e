-- ===== src/Catalog/Frozen.antt =====
-- app/services/catalog.py: which products a plan's bound freezes.
use skladbase.Prelude.{
  ℕ, zero, suc, ◌≤◌, ◌<◌, ◌≡◌, ◌++◌, ap, refl, sym, ◌∙◌, subst, inl, inr, Bool, true, false, some,
  List, [], ◌∷◌, arith, keep, length, All, All-imp, Bool-cases, leb,
}
use skladbase.Prelude.Tables.{Below, Below-mono}
use skladbase.Catalog.{
  Product, Catalog, newer, insert, newest_first, drop, take, is_listed, listed, past_bound,
  frozen_products, current_plan_limits,
}

-- How many products of a list are newer than one.
unfoldable pub rank : Product → List Product → ℕ
rank p ps = length (keep (λ q. newer q p) ps)

abbrev Sorted : List Product → Type 0
Sorted [] = Unit {0}
Sorted (x ∷ xs) = All (λ y. newer x y ≡ true) xs × Sorted xs

newer_trans : (x y z : Product) → newer x y ≡ true → newer y z ≡ true → newer x z ≡ true
newer_trans x y z a b = ground arith

newer_asym : (x y : Product) → newer x y ≡ true → newer y x ≡ false
newer_asym x y a = ground arith

newer_total : (x y : Product) → newer x y ≡ false → y.id < x.id → newer y x ≡ true
newer_total x y a h = ground arith

All-insert :
    (P : Product → Type 0) (x : Product) (ys : List Product) → P x → All P ys → All P (insert x ys)
unfolding insert
All-insert P x [] p h = (p, tt)
All-insert P x (y ∷ ys) p h = elim (Bool-cases (newer x y)) [
  | inl t ↦ rw t (p, h)
  | inr f ↦ rw f (h.0, All-insert P x ys p h.1)
]

insert-Sorted :
    (x : Product) (ys : List Product) → All (λ y. y.id < x.id) ys → Sorted ys → Sorted (insert x ys)
unfolding insert
insert-Sorted x [] h s = (tt, tt)
insert-Sorted x (y ∷ ys) h s = elim (Bool-cases (newer x y)) [
  | inl t ↦ rw t ((t, All-imp _ _ ys s.0 (λ z b. newer_trans x y z t b)), s)
  | inr f ↦ rw f (
    All-insert (λ z. newer y z ≡ true) x ys (newer_total x y f h.0) s.0,
    insert-Sorted x ys h.1 s.1,
  )
]

All-newest_first : (P : Product → Type 0) (ps : List Product) → All P ps → All P (newest_first ps)
unfolding newest_first
All-newest_first P [] h = tt
All-newest_first P (p ∷ ps) h = All-insert P p (newest_first ps) h.0 (All-newest_first P ps h.1)

Below-All : (n : ℕ) (ps : List Product) → Below Product.id n ps → All (λ p. p.id < n) ps
Below-All n [] b = tt
Below-All n (p ∷ ps) b = (b.0, All-imp _ _ ps (Below-All p.id ps b.1) (λ q h. omega (arith, b.0)))

newest_first-Sorted : (n : ℕ) (ps : List Product) → Below Product.id n ps → Sorted (newest_first ps)
unfolding newest_first
newest_first-Sorted n [] b = tt
newest_first-Sorted n (p ∷ ps) b =
    insert-Sorted p (newest_first ps) (All-newest_first _ ps (Below-All p.id ps b.1))
      (newest_first-Sorted p.id ps b.1)

rank-insert : (p x : Product) (ys : List Product) → rank p (insert x ys) ≡ rank p (x ∷ ys)
unfolding rank insert
rank-insert p x [] = refl
rank-insert p x (y ∷ ys) = elim (Bool-cases (newer x y)) [
  | inl t ↦ rw t refl
  | inr f ↦ rw f (ground (arith, rank-insert p x ys))
]

rank-newest_first : (p : Product) (ps : List Product) → rank p (newest_first ps) ≡ rank p ps
unfolding newest_first rank
rank-newest_first p [] = refl
rank-newest_first p (x ∷ ps) =
    rank-insert p x (newest_first ps) ∙ ground (arith, rank-newest_first p ps)

All-drop : (P : Product → Type 0) (n : ℕ) (ps : List Product) → All P ps → All P (drop n ps)
unfolding drop
All-drop P zero ps h = h
All-drop P (suc n) [] h = tt
All-drop P (suc n) (p ∷ ps) h = All-drop P n ps h.1

All-both :
    (P Q R : Product → Type 0) (ps : List Product)
    → All P ps
    → All Q ps
    → ((p : Product) → P p → Q p → R p)
    → All R ps
All-both P Q R [] h k f = tt
All-both P Q R (p ∷ ps) h k f = (f p h.0 k.0, All-both P Q R ps h.1 k.1 f)

-- In a list in order, what is past the first `n` has at least `n` before it.
rank-drop : (n : ℕ) (ps : List Product) → Sorted ps → All (λ p. n ≤ rank p ps) (drop n ps)
unfolding drop rank
rank-drop zero ps s = any ps
  where
    any : (qs : List Product) → All (λ p. 0 ≤ rank p ps) qs
    any [] = tt
    any (q ∷ qs) = (omega arith, any qs)
rank-drop (suc n) [] s = tt
rank-drop (suc n) (x ∷ ps) s =
    All-both _ _ _ (drop n ps) (All-drop _ n ps s.0) (rank-drop n ps s.1) (λ p a h. ground arith)

rank-first : (x : Product) (ps : List Product) → All (λ y. newer x y ≡ true) ps → rank x ps ≡ 0
unfolding rank
rank-first x [] h = refl
rank-first x (y ∷ ps) h = ground (arith, newer_asym x y h.0, rank-first x ps h.1)

-- The first `n` have fewer than `n` before them.
rank-take : (n : ℕ) (ps : List Product) → Sorted ps → All (λ p. rank p ps < n) (take n ps)
unfolding take rank
rank-take zero ps s = tt
rank-take (suc n) [] s = tt
rank-take (suc n) (x ∷ ps) s = (
  ground (arith, rank-first x ps s.0),
  All-imp _ _ (take n ps) (rank-take n ps s.1) (λ p h. ground arith),
)

take-drop : (n : ℕ) (ps : List Product) → take n ps ++ drop n ps ≡ ps
unfolding take drop
take-drop zero ps = refl
take-drop (suc n) [] = refl
take-drop (suc n) (p ∷ ps) = ap (λ qs. p ∷ qs) (take-drop n ps)

drop_all : (n : ℕ) (ps : List Product) → length ps ≤ n → drop n ps ≡ []
unfolding drop
drop_all zero [] h = refl
drop_all zero (p ∷ ps) h = absurd (omega arith)
drop_all (suc n) [] h = refl
drop_all (suc n) (p ∷ ps) h = drop_all n ps (omega arith)

past_bound-drop : (n : ℕ) (ps : List Product) → past_bound (some n) ps ≡ drop n ps
past_bound-drop n ps = elim (Bool-cases (leb (length ps) n)) [
  | inl t ↦ rw t (sym (drop_all n ps (ground arith)))
  | inr f ↦ rw f refl
]

keep-Below :
    (t : Product → Bool) (n : ℕ) (ps : List Product)
    → Below Product.id n ps
    → Below Product.id n (keep t ps)
keep-Below t n [] b = tt
keep-Below t n (p ∷ ps) b = elim (Bool-cases (t p)) [
  | inl hit ↦ rw hit (b.0, keep-Below t p.id ps b.1)
  | inr miss ↦ rw miss (keep-Below t n ps (Below-mono Product.id ps (omega (arith, b.0)) b.1))
]

rank-listed :
    (shop_id : ℕ) (c : Catalog) (P : ℕ → Type 0) (ps : List Product)
    → All (λ p. P (rank p (listed shop_id c))) ps
    → All (λ p. P (rank p (keep (is_listed shop_id) c.products))) ps
rank-listed shop_id c P ps h =
    All-imp _ _ ps h (λ p r. subst P (rank-newest_first p (keep (is_listed shop_id) c.products)) r)

-- Where keys are unique and the plan has the bound `n`, the products of the shop that are not
-- archived fall into two parts: the frozen ones, of which each has at least `n` newer ones, and the others, of which each
-- has fewer than `n` newer ones. Newer is by creation, then by id.
pub frozen_products-rank :
    (now shop_id n k : ℕ) (c : Catalog)
    → Below Product.id k c.products
    → (current_plan_limits now shop_id c).max_products ≡ some n
    → All (λ p. n ≤ rank p (keep (is_listed shop_id) c.products)) (frozen_products now shop_id c)
      × All (λ p. rank p (keep (is_listed shop_id) c.products) < n) (take n (listed shop_id c))
      × (take n (listed shop_id c) ++ frozen_products now shop_id c ≡ listed shop_id c)
unfolding frozen_products
frozen_products-rank now shop_id n k c b e =
    let ps = listed shop_id c in
    let s =
      newest_first-Sorted k (keep (is_listed shop_id) c.products)
        (keep-Below (is_listed shop_id) k c.products b) in
    rw (e, past_bound-drop n ps)
      (
        rank-listed shop_id c (λ r. n ≤ r) (drop n ps) (rank-drop n ps s),
        rank-listed shop_id c (λ r. r < n) (take n ps) (rank-take n ps s),
        take-drop n ps,
      )
