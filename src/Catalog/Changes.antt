-- ===== src/Catalog/Changes.antt =====
-- app/services/catalog.py: each change of products and variants keeps the tables sound.
use skladbase.Prelude.{ℕ, refl, Bool, Option, none, keep, length, leb, String}
use skladbase.Prelude.Tables.{select_one}
use skladbase.Models.{catalog_error, bad_request, not_found, conflict, integrity_error, Variant}
use skladbase.Session.{Action, Result, ok, err, raise_if, or_raise, ◌>>=◌, ◌>>◌, Tx, look}
use skladbase.Session.Whole.{opened, after, or_raise-Still, loaded, passed}
use skladbase.Catalog.{Product, enforce_can_create_product}
use skladbase.Catalog.Axes.{ProductTemplate}
use skladbase.Catalog.Store.{
  Store, ProductInput, VariantAddInput, VariantUpdates, resolve_template, check_axes, check_updates,
  require_product_writable, load_variant_for_shop, owned_by, add_variant, new_product,
}
use skladbase.Catalog.Variants.{
  validate_all, has_none, create_product_with_variants, create_from, create_allowed,
  require_can_create, with_variants, patch_variant, patch_loaded, stored, save_variant, updated,
  add_variant_to_product, add_found, add_numbered, added_variant, sells_product, delete_variant,
  delete_loaded, deleted, is_none_left, holds_active, is_on_order,
}
use skladbase.Catalog.Soundness.{
  Sound, Keeps, ends, enforce-Still, resolve_template-Still, check_axes-Still, check_updates-Still,
  require_product_writable-Still, load_variant-Still, validate_all-Still,
}
use skladbase.Catalog.Writes.{saved-Sound, added-Sound, created-Sound, without-Sound}

patch_variant-Keeps :
    (now shop k : ℕ) (u : VariantUpdates) (s : Store)
    → Sound s
    → Keeps s (patch_variant now shop k u (opened s))
unfolding patch_variant
patch_variant-Keeps now shop k u s sound =
    after Sound (load_variant_for_shop k shop) (patch_loaded now shop u) s
      (load_variant-Still k shop)
      λ v e.
        after Sound (require_product_writable now v.product_id shop)
          (λ _.
            check_updates shop v u.axis_values >> stored (save_variant (updated u v)) (updated u v))
          s (require_product_writable-Still now v.product_id shop)
          λ _ _.
            after Sound (check_updates shop v u.axis_values)
              (λ _. stored (save_variant (updated u v)) (updated u v)) s
              (check_updates-Still shop v u.axis_values)
              λ _ _.
                ends s (save_variant (updated u v)) (updated u v)
                  (saved-Sound s (owned_by shop k) v (updated u v) sound (loaded _ _ _ e) refl refl)

add_variant_to_product-Keeps :
    (now shop k : ℕ) (payload : VariantAddInput) (s : Store)
    → Sound s
    → Keeps s (add_variant_to_product now shop k payload (opened s))
unfolding add_variant_to_product
add_variant_to_product-Keeps now shop k payload s sound =
    after Sound
      (or_raise (select_one (sells_product shop k) s.catalog.products) (catalog_error not_found))
      (add_found now shop k payload) s
      (or_raise-Still (select_one (sells_product shop k) s.catalog.products)
        (catalog_error not_found))
      λ p _.
        after Sound (require_product_writable now k shop) (λ _. add_checked p) s
          (require_product_writable-Still now k shop)
          λ _ _.
            after Sound (check_axes shop p payload.axis_values none) (λ _. add_last) s
              (check_axes-Still shop p payload.axis_values none)
              λ _ _.
                ends s (add_variant (added_variant shop k payload))
                  (added_variant shop k payload s.next_variant)
                  (added-Sound s (added_variant shop k payload) sound (λ id. refl))
  where
    add_last : Action (Tx Store) Variant
    add_last = look Store.next_variant >>= add_numbered shop k payload

    add_checked : Product → Action (Tx Store) Variant
    add_checked p = check_axes shop p payload.axis_values none >> add_last

create_product_with_variants-Keeps :
    (now shop : ℕ) (payload : ProductInput) (s : Store)
    → Sound s
    → Keeps s (create_product_with_variants now shop payload (opened s))
unfolding create_product_with_variants
create_product_with_variants-Keeps now shop payload s sound =
    after Sound (raise_if (has_none payload.variants) (catalog_error bad_request)) (λ _. resolving)
      s (λ t. refl)
      λ _ e.
        after Sound (resolve_template shop payload.template_id) (create_from now shop payload) s
          (resolve_template-Still shop payload.template_id)
          λ t _.
            after Sound (validate_all t payload.variants) (λ _. validated t) s
              (validate_all-Still t payload.variants)
              λ _ _.
                after Sound (require_can_create now shop) (λ _. create_allowed now shop payload t) s
                  (λ u. enforce-Still (enforce_can_create_product now shop u.work.catalog) u)
                  λ _ _.
                    ends s (with_variants shop s.next_product payload.variants (numbered t))
                      (numbered t)
                      (created-Sound shop payload.variants (numbered t) s sound
                        (passed (has_none payload.variants) (opened s) _ e))
  where
    resolving : Action (Tx Store) Product
    resolving = resolve_template shop payload.template_id >>= create_from now shop payload

    validated : Option ProductTemplate → Action (Tx Store) Product
    validated t = require_can_create now shop >> create_allowed now shop payload t

    numbered : Option ProductTemplate → Product
    numbered t = new_product now shop payload t s.next_product

delete_variant-Keeps :
    (now shop k : ℕ) (s : Store) → Sound s → Keeps s (delete_variant now shop k (opened s))
unfolding delete_variant
delete_variant-Keeps now shop k s sound =
    after Sound (load_variant_for_shop k shop) (delete_loaded now shop k) s
      (load_variant-Still k shop)
      λ v e.
        after Sound (require_product_writable now v.product_id shop) (λ _. guarded v) s
          (require_product_writable-Still now v.product_id shop)
          λ _ _.
            after Sound
              (raise_if (is_none_left v.product_id s.stock.variants) (catalog_error conflict))
              (λ _. unheld v) s (λ t. refl)
              λ _ left.
                after Sound (raise_if (is_held s) (catalog_error conflict)) (λ _. unordered v) s
                  (λ t. refl)
                  λ _ _.
                    after Sound (raise_if (is_ordered s) integrity_error)
                      (λ _. deleted k v.photo_url) s (λ t. refl)
                      λ _ _.
                        (without-Sound shop k v s sound (loaded _ _ _ e) (passed _ _ _ left), refl)
  where
    is_held : Store → Bool
    is_held t = leb 1 (length (keep (holds_active k) t.stock.reservations))

    is_ordered : Store → Bool
    is_ordered t = leb 1 (length (keep (is_on_order k) t.stock.order_items))

    unordered : Variant → Action (Tx Store) (Option String)
    unordered v = look is_ordered >>= λ b. raise_if b integrity_error >> deleted k v.photo_url

    unheld : Variant → Action (Tx Store) (Option String)
    unheld v = look is_held >>= λ b. raise_if b (catalog_error conflict) >> unordered v

    guarded : Variant → Action (Tx Store) (Option String)
    guarded v = look (λ t. is_none_left v.product_id t.stock.variants) >>= λ b.
        raise_if b (catalog_error conflict) >> unheld v

-- One change of the catalogue.
pub data Change : Type 0 where
  creates : ProductInput → Change
  patches : ℕ → VariantUpdates → Change
  adds : ℕ → VariantAddInput → Change
  deletes : ℕ → Change

abbrev pub forgets : {A : Type 0} → Result A × Tx Store → Result (Unit {0}) × Tx Store
forgets (ok a, t) = (ok tt, t)
forgets (err e, t) = (err e, t)

unfoldable pub apply : ℕ → ℕ → Change → Action (Tx Store) (Unit {0})
apply now shop (creates payload) t = forgets (create_product_with_variants now shop payload t)
apply now shop (patches k u) t = forgets (patch_variant now shop k u t)
apply now shop (adds k payload) t = forgets (add_variant_to_product now shop k payload t)
apply now shop (deletes k) t = forgets (delete_variant now shop k t)

forgets-Keeps :
    {A : Type 0} (s : Store) (out : Result A × Tx Store) → Keeps s out → Keeps s (forgets out)
forgets-Keeps s (ok a, t) h = h
forgets-Keeps s (err e, t) h = h

-- From sound tables each of the four changes, of any shop, is all or nothing: a raise has changed
-- nothing, and a return has committed tables in which keys are unique, no two variants of a shop
-- have the same SKU, and each product has a variant.
pub apply-Keeps :
    (now shop : ℕ) (c : Change) (s : Store) → Sound s → Keeps s (apply now shop c (opened s))
unfolding apply
apply-Keeps now shop (creates payload) s sound =
    forgets-Keeps s _ (create_product_with_variants-Keeps now shop payload s sound)
apply-Keeps now shop (patches k u) s sound =
    forgets-Keeps s _ (patch_variant-Keeps now shop k u s sound)
apply-Keeps now shop (adds k payload) s sound =
    forgets-Keeps s _ (add_variant_to_product-Keeps now shop k payload s sound)
apply-Keeps now shop (deletes k) s sound =
    forgets-Keeps s _ (delete_variant-Keeps now shop k s sound)
