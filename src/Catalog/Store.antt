-- ===== src/Catalog/Store.antt =====
-- app/services/catalog.py: the tables of products and variants, what the calls are given, and the
-- checks and writes that they share.
use skladbase.Prelude.{
  ℕ, suc, String, Bool, true, false, ◌&&◌, ◌||◌, not, Option, none, some, List, [], ◌∷◌, ◌==◌,
  is_at, is_text, is_some,
}
use skladbase.Prelude.Int.{ℤ, pos}
use skladbase.Prelude.Tables.{select_one}
use skladbase.Models.{catalog_error, server_error, not_found, conflict, Variant, Db}
use skladbase.Session.{Action, pure, raise, or_raise, raise_if, ◌>>=◌, ◌>>◌, Tx, look, rollback_tx}
use skladbase.Access.{Checked, admitted, refused}
use skladbase.Catalog.{Product, Catalog, enforce_product_writable}
use skladbase.Catalog.Axes.{ProductTemplate, Dict, validate_axis_values, same_dict}

-- The tables that the service reads and writes, and the sequences of products and variants.
pub record Store : Type 0 where
  pub catalog : Catalog
  pub templates : List ProductTemplate
  pub stock : Db
  pub next_product : ℕ
  pub next_variant : ℕ

pub record VariantInput : Type 0 where
  pub price : ℤ
  pub axis_values : Dict String
  pub sku : Option String
  pub on_hand : ℤ
  pub low_stock_threshold : ℤ

-- Without the free-form attributes.
pub record ProductInput : Type 0 where
  pub name : String
  pub variants : List VariantInput
  pub description : Option String
  pub template_id : Option ℕ

-- `VariantAddInput`
pub record VariantAddInput : Type 0 where
  pub price : ℤ
  pub axis_values : Dict String
  pub sku : Option String

-- The keys of `updates` that are there.
pub record VariantUpdates : Type 0 where
  pub price : Option ℤ
  pub sku : Option (Option String)
  pub axis_values : Option (Dict String)

-- A check that fails raises a CatalogError with its status.
abbrev pub enforce : Checked (Unit {0}) → Action (Tx Store) (Unit {0})
enforce (admitted a) = pure tt
enforce (refused c) = raise (catalog_error c)

abbrev pub serves : ℕ → ℕ → ProductTemplate → Bool
serves shop_id template_id t =
    t.id == template_id && (is_at t.shop_id shop_id || not (is_some t.shop_id))

abbrev pub found_template : Option ProductTemplate → Action (Tx Store) (Option ProductTemplate)
found_template none = raise (catalog_error not_found)
found_template (some t) = pure (some t)

-- `_resolve_template`
abbrev pub resolve_template : ℕ → Option ℕ → Action (Tx Store) (Option ProductTemplate)
resolve_template shop_id none = pure none
resolve_template shop_id (some template_id) =
    look (λ s. select_one (serves shop_id template_id) s.templates) >>= found_template

abbrev pub template_key : Option ProductTemplate → Option ℕ
template_key none = none
template_key (some t) = some t.id

-- `UniqueConstraint("shop_id", "sku")`: two rows of a shop have the same text as their SKU
abbrev pub same_sku : Variant → Variant → Bool
same_sku v w = elim v.sku [ none ↦ false | some sku ↦ v.shop_id == w.shop_id && is_text w.sku sku ]

unfoldable pub clashes : Variant → List Variant → Bool
clashes v [] = false
clashes v (w ∷ ws) = same_sku v w || clashes v ws

unfoldable pub sku_taken : List Variant → Bool
unfolding clashes
sku_taken [] = false
sku_taken (v ∷ vs) = clashes v vs || sku_taken vs

-- What the answer of the database to the flush leads to.
abbrev pub after_flush : Bool → Action (Tx Store) (Unit {0})
after_flush true = rollback_tx >> raise (catalog_error conflict)
after_flush false = pure tt

-- `session.flush()`, with the roll-back and the CatalogError on an IntegrityError
abbrev pub flush_or_conflict : Action (Tx Store) (Unit {0})
flush_or_conflict = look (λ s. sku_taken s.stock.variants) >>= after_flush

abbrev pub new_variant : ℕ → ℕ → VariantInput → ℕ → Variant
new_variant shop_id product_id input id = record {
  id = id;
  shop_id = shop_id;
  product_id = product_id;
  sku = input.sku;
  axis_values = input.axis_values;
  photo_url = none;
  price = input.price;
  on_hand = input.on_hand;
  reserved = pos 0;
  low_stock_threshold = input.low_stock_threshold;
  low_stock_notified_at = none;
  expires_on = none;
}

abbrev pub add_variant : (ℕ → Variant) → Store → Store
add_variant v s = record s {
  stock = record s.stock { variants = v s.next_variant ∷ s.stock.variants };
  next_variant = suc s.next_variant;
}

unfoldable pub add_variants : ℕ → ℕ → List VariantInput → Store → Store
add_variants shop_id product_id [] s = s
add_variants shop_id product_id (input ∷ inputs) s =
    add_variants shop_id product_id inputs (add_variant (new_variant shop_id product_id input) s)

abbrev pub new_product : ℕ → ℕ → ProductInput → Option ProductTemplate → ℕ → Product
new_product now shop_id payload template id = record {
  id = id;
  shop_id = shop_id;
  template_id = template_key template;
  name = payload.name;
  description = payload.description;
  is_demo = false;
  archived = false;
  created_at = now;
}

abbrev pub add_product : Product → Store → Store
add_product p s = record s {
  catalog = record s.catalog { products = p ∷ s.catalog.products };
  next_product = suc s.next_product;
}

abbrev pub owned_by : ℕ → ℕ → Variant → Bool
owned_by shop_id variant_id v = v.id == variant_id && v.shop_id == shop_id

-- `_load_variant_for_shop`
abbrev pub load_variant_for_shop : ℕ → ℕ → Action (Tx Store) Variant
load_variant_for_shop variant_id shop_id = do
  found ← look (λ s. select_one (owned_by shop_id variant_id) s.stock.variants)
  or_raise found (catalog_error not_found)

abbrev pub is_excluded : Option ℕ → Variant → Bool
is_excluded none v = false
is_excluded (some k) v = v.id == k

-- whether a variant of the product, but the excluded one, has the same axes
unfoldable pub axes_taken : ℕ → Dict String → Option ℕ → List Variant → Bool
unfolding same_dict
axes_taken product_id values exclude_id [] = false
axes_taken product_id values exclude_id (v ∷ vs) =
    v.product_id == product_id && not (is_excluded exclude_id v) && same_dict v.axis_values values
    || axes_taken product_id values exclude_id vs

-- `_check_no_axis_duplicate`
abbrev pub check_no_axis_duplicate : ℕ → Dict String → Option ℕ → Action (Tx Store) (Unit {0})
check_no_axis_duplicate product_id values exclude_id = do
  taken ← look (λ s. axes_taken product_id values exclude_id s.stock.variants)
  raise_if taken (catalog_error conflict)

abbrev pub require_product_writable : ℕ → ℕ → ℕ → Action (Tx Store) (Unit {0})
require_product_writable now product_id shop_id =
    look (λ s. enforce_product_writable now product_id shop_id s.catalog) >>= enforce

abbrev pub check_with :
    ℕ → Dict String → Option ℕ → Option ProductTemplate → Action (Tx Store) (Unit {0})
check_with product_id values exclude_id template =
    enforce (validate_axis_values template values)
    >> check_no_axis_duplicate product_id values exclude_id

abbrev pub check_axes : ℕ → Product → Dict String → Option ℕ → Action (Tx Store) (Unit {0})
check_axes shop_id product values exclude_id =
    resolve_template shop_id product.template_id >>= check_with product.id values exclude_id

abbrev pub is_product : ℕ → Product → Bool
is_product product_id p = p.id == product_id

-- the axes of `updates`, where they are there
abbrev pub check_updates : ℕ → Variant → Option (Dict String) → Action (Tx Store) (Unit {0})
check_updates shop_id variant none = pure tt
check_updates shop_id variant (some values) = do
  found ← look (λ s. select_one (is_product variant.product_id) s.catalog.products)
  product ← or_raise found server_error
  check_axes shop_id product values (some variant.id)
