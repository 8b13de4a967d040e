-- ===== src/Catalog/Variants.antt =====
-- app/services/catalog.py: products with their variants. What is written is committed at the end of a
-- call; the one error that comes after a write, a taken SKU, rolls back.
use skladbase.Prelude.{
  ℕ, String, Bool, true, false, ◌&&◌, not, Option, none, some, List, [], ◌∷◌, ◌==◌, leb, keep,
  length,
}
use skladbase.Prelude.Int.{pos}
use skladbase.Prelude.Tables.{select_one, save}
use skladbase.Models.{
  catalog_error, integrity_error, bad_request, not_found, conflict, Variant, Reservation, OrderItem,
  is_active,
}
use skladbase.Session.{Action, pure, or_raise, raise_if, ◌>>=◌, ◌>>◌, Tx, change, look, commit_tx}
use skladbase.Catalog.{Product, enforce_can_create_product, enforce_product_writable}
use skladbase.Catalog.Axes.{ProductTemplate, validate_axis_values}
use skladbase.Catalog.Store.{
  Store, VariantInput, ProductInput, VariantAddInput, VariantUpdates, enforce, resolve_template,
  sku_taken, flush_or_conflict, new_variant, add_variant, add_variants, new_product, add_product,
  load_variant_for_shop, axes_taken, require_product_writable, check_axes, check_updates,
}

unfoldable pub validate_all :
    Option ProductTemplate → List VariantInput → Action (Tx Store) (Unit {0})
unfolding validate_axis_values
validate_all template [] = pure tt
validate_all template (input ∷ inputs) =
    enforce (validate_axis_values template input.axis_values) >> validate_all template inputs

-- `not payload.variants`
abbrev pub has_none : List VariantInput → Bool
has_none [] = true
has_none (_ ∷ _) = false

-- Write, flush, commit and return.
abbrev pub stored : {A : Type 0} → (Store → Store) → A → Action (Tx Store) A
stored g a = change g >> flush_or_conflict >> commit_tx >> pure a

abbrev pub with_variants : ℕ → ℕ → List VariantInput → Product → Store → Store
with_variants shop_id id inputs p s = add_variants shop_id id inputs (add_product p s)

abbrev pub create_numbered :
    ℕ → ℕ → ProductInput → Option ProductTemplate → ℕ → Action (Tx Store) Product
create_numbered now shop_id payload template id =
    let product = new_product now shop_id payload template id in
    stored (with_variants shop_id id payload.variants product) product

abbrev pub create_allowed :
    ℕ → ℕ → ProductInput → Option ProductTemplate → Action (Tx Store) Product
create_allowed now shop_id payload template =
    look Store.next_product >>= create_numbered now shop_id payload template

abbrev pub require_can_create : ℕ → ℕ → Action (Tx Store) (Unit {0})
require_can_create now shop_id =
    look (λ s. enforce_can_create_product now shop_id s.catalog) >>= enforce

abbrev pub create_from : ℕ → ℕ → ProductInput → Option ProductTemplate → Action (Tx Store) Product
create_from now shop_id payload template = do
  validate_all template payload.variants
  require_can_create now shop_id
  create_allowed now shop_id payload template

unfoldable pub create_product_with_variants : ℕ → ℕ → ProductInput → Action (Tx Store) Product
unfolding validate_all add_variants sku_taken enforce_can_create_product
create_product_with_variants now shop_id payload =
    raise_if (has_none payload.variants) (catalog_error bad_request)
    >> (resolve_template shop_id payload.template_id >>= create_from now shop_id payload)

abbrev pub or_kept : {A : Type 0} → Option A → A → A
or_kept none kept = kept
or_kept (some new) kept = new

abbrev pub updated : VariantUpdates → Variant → Variant
updated updates v = record v {
  price = or_kept updates.price v.price;
  sku = or_kept updates.sku v.sku;
  axis_values = or_kept updates.axis_values v.axis_values;
}

abbrev pub save_variant : Variant → Store → Store
save_variant v s = record s {
  stock = record s.stock { variants = save Variant.id v s.stock.variants };
}

abbrev pub patch_loaded : ℕ → ℕ → VariantUpdates → Variant → Action (Tx Store) Variant
patch_loaded now shop_id updates variant = do
  require_product_writable now variant.product_id shop_id
  check_updates shop_id variant updates.axis_values
  stored (save_variant (updated updates variant)) (updated updates variant)

unfoldable pub patch_variant : ℕ → ℕ → ℕ → VariantUpdates → Action (Tx Store) Variant
unfolding validate_axis_values axes_taken sku_taken enforce_product_writable
patch_variant now shop_id variant_id updates =
    load_variant_for_shop variant_id shop_id >>= patch_loaded now shop_id updates

abbrev pub sells_product : ℕ → ℕ → Product → Bool
sells_product shop_id product_id p = p.id == product_id && p.shop_id == shop_id

-- The column's default threshold is three.
abbrev pub added_variant : ℕ → ℕ → VariantAddInput → ℕ → Variant
added_variant shop_id product_id payload = new_variant shop_id product_id (record {
  price = payload.price;
  axis_values = payload.axis_values;
  sku = payload.sku;
  on_hand = pos 0;
  low_stock_threshold = pos 3;
})

abbrev pub add_numbered : ℕ → ℕ → VariantAddInput → ℕ → Action (Tx Store) Variant
add_numbered shop_id product_id payload id =
    stored (add_variant (added_variant shop_id product_id payload))
      (added_variant shop_id product_id payload id)

abbrev pub add_found : ℕ → ℕ → ℕ → VariantAddInput → Product → Action (Tx Store) Variant
add_found now shop_id product_id payload product = do
  require_product_writable now product_id shop_id
  check_axes shop_id product payload.axis_values none
  look Store.next_variant >>= add_numbered shop_id product_id payload

unfoldable pub add_variant_to_product : ℕ → ℕ → ℕ → VariantAddInput → Action (Tx Store) Variant
unfolding validate_axis_values axes_taken sku_taken enforce_product_writable
add_variant_to_product now shop_id product_id payload = do
  found ← look (λ s. select_one (sells_product shop_id product_id) s.catalog.products)
  product ← or_raise found (catalog_error not_found)
  add_found now shop_id product_id payload product

abbrev pub holds_active : ℕ → Reservation → Bool
holds_active variant_id r = r.variant_id == variant_id && is_active r.status

abbrev pub is_on_order : ℕ → OrderItem → Bool
is_on_order variant_id i = i.variant_id == variant_id

-- `DELETE` with the foreign keys: an order's item keeps the variant (RESTRICT), its reservations and
-- movements go with it (CASCADE).
abbrev pub without_variant : ℕ → Store → Store
without_variant k s = record s {
  stock = record s.stock {
    variants = keep (λ v. not (v.id == k)) s.stock.variants;
    reservations = keep (λ r. not (r.variant_id == k)) s.stock.reservations;
    movements = keep (λ m. not (m.variant_id == k)) s.stock.movements;
  };
}

abbrev pub is_none_left : ℕ → List Variant → Bool
is_none_left product_id vs = leb (length (keep (λ v. v.product_id == product_id) vs)) 1

abbrev pub deleted : ℕ → Option String → Action (Tx Store) (Option String)
deleted variant_id photo_url = change (without_variant variant_id) >> commit_tx >> pure photo_url

abbrev pub delete_loaded : ℕ → ℕ → ℕ → Variant → Action (Tx Store) (Option String)
delete_loaded now shop_id variant_id variant = do
  require_product_writable now variant.product_id shop_id
  last ← look (λ s. is_none_left variant.product_id s.stock.variants)
  raise_if last (catalog_error conflict)
  held ← look (λ s. leb 1 (length (keep (holds_active variant_id) s.stock.reservations)))
  raise_if held (catalog_error conflict)
  ordered ← look (λ s. leb 1 (length (keep (is_on_order variant_id) s.stock.order_items)))
  raise_if ordered integrity_error
  deleted variant_id variant.photo_url

unfoldable pub delete_variant : ℕ → ℕ → ℕ → Action (Tx Store) (Option String)
unfolding enforce_product_writable
delete_variant now shop_id variant_id =
    load_variant_for_shop variant_id shop_id >>= delete_loaded now shop_id variant_id
