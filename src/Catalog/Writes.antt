-- ===== src/Catalog/Writes.antt =====
-- app/services/catalog.py: each write of the service keeps the tables sound.
use skladbase.Prelude.{
  ℕ, ◌≤◌, ◌≡◌, refl, sym, ap, subst, inl, inr, Bool, false, some, List, [], ◌∷◌, ◌==◌, arith, keep,
  length, All, All-imp, Bool-cases,
}
use skladbase.Prelude.Tables.{select_one, select_one-test, Below, Below-save, Below-mono}
use skladbase.Models.{Variant}
use skladbase.Catalog.{Product, Catalog}
use skladbase.Catalog.Store.{
  Store, VariantInput, clashes, sku_taken, owned_by, add_variant, add_variants, new_variant,
  add_product,
}
use skladbase.Catalog.Variants.{
  has_none, with_variants, save_variant, without_variant, is_none_left,
}
use skladbase.Catalog.Counting.{count, count-save, count-without, count-without_other}
use skladbase.Catalog.Soundness.{of_product, Sound}

-- A patch keeps the product of a variant, so each product keeps its number of variants.
pub saved-Sound :
    (s : Store) (p : Variant → Bool) (v w : Variant)
    → Sound s
    → select_one p s.stock.variants ≡ some v
    → w.id ≡ v.id
    → w.product_id ≡ v.product_id
    → sku_taken (save_variant w s).stock.variants ≡ false
    → Sound (save_variant w s)
saved-Sound s p v w sound e i same free = record {
  numbered = Below-save Variant.id s.next_variant w s.stock.variants sound.numbered;
  distinct = free;
  stocked = All-imp _ _ s.catalog.products sound.stocked λ q h.
      subst (λ n. 1 ≤ n)
        (sym (
          count-save Variant.id (of_product q.id) p s.next_variant w s.stock.variants sound.numbered
            e i (ap (λ k. k == q.id) same)))
        h;
}

keep-more :
    (q : Variant → Bool) (v : Variant) (vs : List Variant)
    → 1 ≤ length (keep q vs)
    → 1 ≤ length (keep q (v ∷ vs))
keep-more q v vs h = elim (Bool-cases (q v)) [ inl t ↦ rw t (omega arith) | inr f ↦ rw f h ]

-- A new variant with a new key; the database has found its SKU free.
pub added-Sound :
    (s : Store) (v : ℕ → Variant)
    → Sound s
    → ((id : ℕ) → (v id).id ≡ id)
    → sku_taken (add_variant v s).stock.variants ≡ false
    → Sound (add_variant v s)
added-Sound s v sound i free = record {
  numbered = (
    omega (arith, i s.next_variant),
    subst (λ k. Below Variant.id k s.stock.variants) (sym (i s.next_variant)) sound.numbered,
  );
  distinct = free;
  stocked =
      All-imp _ _ s.catalog.products sound.stocked
        λ q h. keep-more (of_product q.id) (v s.next_variant) s.stock.variants h;
}

-- The variants of a new product, one after another.
add_variants-catalog :
    (shop k : ℕ) (inputs : List VariantInput) (s : Store)
    → (add_variants shop k inputs s).catalog ≡ s.catalog
unfolding add_variants
add_variants-catalog shop k [] s = refl
add_variants-catalog shop k (input ∷ inputs) s =
    add_variants-catalog shop k inputs (add_variant (new_variant shop k input) s)

add_variants-Below :
    (shop k : ℕ) (inputs : List VariantInput) (s : Store)
    → Below Variant.id s.next_variant s.stock.variants
    → Below Variant.id
        (add_variants shop k inputs s).next_variant
        (add_variants shop k inputs s).stock.variants
unfolding add_variants
add_variants-Below shop k [] s h = h
add_variants-Below shop k (input ∷ inputs) s h =
    add_variants-Below shop k inputs (add_variant (new_variant shop k input) s) (omega arith, h)

add_variants-more :
    (shop k j : ℕ) (inputs : List VariantInput) (s : Store)
    → 1 ≤ length (keep (of_product j) s.stock.variants)
    → 1 ≤ length (keep (of_product j) (add_variants shop k inputs s).stock.variants)
unfolding add_variants
add_variants-more shop k j [] s h = h
add_variants-more shop k j (input ∷ inputs) s h =
    add_variants-more shop k j inputs (add_variant (new_variant shop k input) s)
      (keep-more (of_product j) (new_variant shop k input s.next_variant) s.stock.variants h)

add_variants-some :
    (shop k : ℕ) (inputs : List VariantInput) (s : Store)
    → has_none inputs ≡ false
    → 1 ≤ length (keep (of_product k) (add_variants shop k inputs s).stock.variants)
unfolding add_variants
add_variants-some shop k [] s h = absurd (ground (arith, h))
add_variants-some shop k (input ∷ inputs) s h =
    add_variants-more shop k k inputs (add_variant (new_variant shop k input) s) (ground arith)

pub created-Sound :
    (shop : ℕ) (inputs : List VariantInput) (p : Product) (s : Store)
    → Sound s
    → has_none inputs ≡ false
    → sku_taken (with_variants shop p.id inputs p s).stock.variants ≡ false
    → Sound (with_variants shop p.id inputs p s)
created-Sound shop inputs p s sound filled free =
    let after_all = with_variants shop p.id inputs p s in
    record {
      numbered = add_variants-Below shop p.id inputs (add_product p s) sound.numbered;
      distinct = free;
      stocked =
          subst
            (λ (c : Catalog).
              All (λ q. 1 ≤ length (keep (of_product q.id) after_all.stock.variants)) c.products)
            (sym (add_variants-catalog shop p.id inputs (add_product p s)))
            (
              add_variants-some shop p.id inputs (add_product p s) filled,
              All-imp _ _ s.catalog.products sound.stocked
                  λ q h. add_variants-more shop p.id q.id inputs (add_product p s) h,
            );
    }

-- A deletion leaves another variant of the product, and the other products theirs.
clashes-keep :
    (f : Variant → Bool) (v : Variant) (vs : List Variant)
    → clashes v vs ≡ false
    → clashes v (keep f vs) ≡ false
unfolding clashes
clashes-keep f v [] h = refl
clashes-keep f v (w ∷ ws) h = elim (Bool-cases (f w)) [
  | inl t ↦ rw t (ground (arith, clashes-keep f v ws))
  | inr e ↦ rw e (clashes-keep f v ws (ground arith))
]

sku_taken-keep :
    (f : Variant → Bool) (vs : List Variant) → sku_taken vs ≡ false → sku_taken (keep f vs) ≡ false
unfolding sku_taken
sku_taken-keep f [] h = refl
sku_taken-keep f (v ∷ vs) h = elim (Bool-cases (f v)) [
  | inl t ↦ rw t (ground (arith, clashes-keep f v vs, sku_taken-keep f vs))
  | inr e ↦ rw e (sku_taken-keep f vs (ground arith))
]

keep-Below :
    (f : Variant → Bool) (n : ℕ) (vs : List Variant)
    → Below Variant.id n vs
    → Below Variant.id n (keep f vs)
keep-Below f n [] b = tt
keep-Below f n (v ∷ vs) b = elim (Bool-cases (f v)) [
  | inl t ↦ rw t (b.0, keep-Below f v.id vs b.1)
  | inr e ↦ rw e (Below-mono Variant.id (keep f vs) (omega (arith, b.0)) (keep-Below f v.id vs b.1))
]

pub without-Sound :
    (shop k : ℕ) (v : Variant) (s : Store)
    → Sound s
    → select_one (owned_by shop k) s.stock.variants ≡ some v
    → is_none_left v.product_id s.stock.variants ≡ false
    → Sound (without_variant k s)
without-Sound shop k v s sound e left =
    let vs = s.stock.variants in
    let at : v.id ≡ k = ground (arith, select_one-test (owned_by shop k) vs e) in
    record {
      numbered = keep-Below _ s.next_variant vs sound.numbered;
      distinct = sku_taken-keep _ vs sound.distinct;
      stocked = All-imp _ _ s.catalog.products sound.stocked λ q h.
          elim (Bool-cases (of_product q.id v)) [
            | inl own ↦
                let same : v.product_id ≡ q.id = ground arith in
                let two : 2 ≤ count Variant.id (of_product q.id) vs =
                  subst (λ j. 2 ≤ length (keep (of_product j) vs)) same (ground (arith, left)) in
                omega (
                  arith,
                  two,
                  count-without Variant.id (of_product q.id) s.next_variant k vs sound.numbered,
                )
            | inr other ↦
                subst (λ n. 1 ≤ n)
                  (sym (
                    count-without_other Variant.id (of_product q.id) (owned_by shop k)
                      s.next_variant k vs sound.numbered e at other))
                  h
          ];
    }
