-- ===== src/Catalog/Soundness.antt =====
-- app/services/catalog.py: what every call of the service keeps.
use skladbase.Prelude.{
  ℕ, ◌≤◌, ◌≡◌, refl, Bool, true, false, Option, none, some, List, [], ◌∷◌, ◌==◌, keep, length, All,
  String,
}
use skladbase.Prelude.Tables.{select_one, Below}
use skladbase.Models.{catalog_error, server_error, not_found, Variant}
use skladbase.Session.{Result, pure, or_raise, ◌>>◌, Tx, change, commit_tx}
use skladbase.Session.Whole.{Still, over-Still, bind-Still, or_raise-Still, Whole, opened}
use skladbase.Access.{Checked, admitted, refused}
use skladbase.Catalog.{Product, enforce_product_writable}
use skladbase.Catalog.Axes.{ProductTemplate, Dict, validate_axis_values}
use skladbase.Catalog.Variants.{validate_all}
use skladbase.Catalog.Store.{
  Store, VariantInput, enforce, resolve_template, found_template, serves, sku_taken,
  flush_or_conflict, after_flush, check_axes, check_with, check_no_axis_duplicate, check_updates,
  is_product, require_product_writable, load_variant_for_shop, owned_by,
}

abbrev pub of_product : ℕ → Variant → Bool
of_product k v = v.product_id == k

-- Keys are unique, no two variants of a shop have the same SKU, and each product has a variant.
pub record Sound (s : Store) : Type 0 where
  pub numbered : Below Variant.id s.next_variant s.stock.variants
  pub distinct : sku_taken s.stock.variants ≡ false
  pub stocked : All (λ p. 1 ≤ length (keep (of_product p.id) s.stock.variants)) s.catalog.products

-- A call that raises has changed nothing; one that returns has committed all it wrote, sound tables.
abbrev pub Keeps : {A : Type 0} → Store → Result A × Tx Store → Type 0
Keeps s out = Whole Sound s out

pub enforce-Still : (c : Checked (Unit {0})) → Still (enforce c)
enforce-Still (admitted a) s = refl
enforce-Still (refused c) s = refl

-- The end of a call that writes: the flush finds a taken SKU and rolls back, or all is committed.
flushed :
    {A : Type 0} (s : Store) (g : Store → Store) (a : A) (b : Bool)
    → sku_taken (g s).stock.variants ≡ b
    → (b ≡ false → Sound (g s))
    → Keeps s ((after_flush b >> commit_tx >> pure a) (record { committed = s; work = g s }))
flushed s g a true e h = refl
flushed s g a false e h = (h refl, refl)

pub ends :
    {A : Type 0} (s : Store) (g : Store → Store) (a : A)
    → (sku_taken (g s).stock.variants ≡ false → Sound (g s))
    → Keeps s ((change g >> flush_or_conflict >> commit_tx >> pure a) (opened s))
ends s g a h = flushed s g a (sku_taken (g s).stock.variants) refl h

pub resolve_template-Still : (shop_id : ℕ) (k : Option ℕ) → Still (resolve_template shop_id k)
resolve_template-Still shop_id none s = refl
resolve_template-Still shop_id (some k) s = found (select_one (serves shop_id k) s.work.templates)
  where
    found : (o : Option ProductTemplate) → (found_template o s).1 ≡ s
    found none = refl
    found (some t) = refl

pub check_axes-Still :
    (shop_id : ℕ) (p : Product) (values : Dict String) (k : Option ℕ)
    → Still (check_axes shop_id p values k)
check_axes-Still shop_id p values k =
    bind-Still (resolve_template shop_id p.template_id) (check_with p.id values k)
      (resolve_template-Still shop_id p.template_id)
      λ t.
        bind-Still (enforce (validate_axis_values t values))
          (λ _. check_no_axis_duplicate p.id values k)
          (enforce-Still (validate_axis_values t values)) λ _ s. refl

pub check_updates-Still :
    (shop_id : ℕ) (v : Variant) (values : Option (Dict String))
    → Still (check_updates shop_id v values)
check_updates-Still shop_id v none s = refl
check_updates-Still shop_id v (some values) s =
    over-Still (λ p. check_axes shop_id p values (some v.id)) s
      (or_raise (select_one (is_product v.product_id) s.work.catalog.products) server_error s)
      (or_raise-Still (select_one (is_product v.product_id) s.work.catalog.products) server_error s)
      λ p. check_axes-Still shop_id p values (some v.id)

pub require_product_writable-Still :
    (now product_id shop_id : ℕ) → Still (require_product_writable now product_id shop_id)
require_product_writable-Still now product_id shop_id s =
    enforce-Still (enforce_product_writable now product_id shop_id s.work.catalog) s

pub load_variant-Still : (k shop_id : ℕ) → Still (load_variant_for_shop k shop_id)
load_variant-Still k shop_id s =
    or_raise-Still (select_one (owned_by shop_id k) s.work.stock.variants) (catalog_error not_found)
      s

pub validate_all-Still :
    (t : Option ProductTemplate) (inputs : List VariantInput) → Still (validate_all t inputs)
unfolding validate_all
validate_all-Still t [] = λ s. refl
validate_all-Still t (input ∷ inputs) =
    bind-Still (enforce (validate_axis_values t input.axis_values)) (λ _. validate_all t inputs)
      (enforce-Still (validate_axis_values t input.axis_values)) λ _. validate_all-Still t inputs
