-- ===== src/Samples/CatalogRuns.antt =====
-- The theorem on the catalogue, on a shop with one product.
use skladbase.Prelude.{refl, false, none, some, [], ◌∷◌, arith}
use skladbase.Prelude.Int.{pos}
use skladbase.Catalog.{Product}
use skladbase.Catalog.Store.{Store, VariantUpdates, sku_taken}
use skladbase.Catalog.Soundness.{Sound, Keeps}
use skladbase.Session.Whole.{opened}
use skladbase.Catalog.Changes.{patches, apply, apply-Keeps}
use skladbase.Samples.Shelf.{shelf}

abbrev mug : Product
mug = record {
  id = 1;
  shop_id = 7;
  template_id = none;
  name = "Mug";
  description = none;
  is_demo = false;
  archived = false;
  created_at = 5;
}

abbrev store : Store
store = record {
  catalog = record { products = mug ∷ []; subscriptions = []; plans = [] };
  templates = [];
  stock = shelf;
  next_product = 2;
  next_variant = 2;
}

store-Sound : Sound store
unfolding sku_taken
store-Sound = record { numbered = (omega arith, tt); distinct = refl; stocked = (omega arith, tt) }

abbrev priced : VariantUpdates
priced = record { price = some (pos 3000); sku = some (some "M-1"); axis_values = none }

apply-Keeps_example : Keeps store (apply 60 7 (patches 1 priced) (opened store))
apply-Keeps_example = apply-Keeps 60 7 (patches 1 priced) store store-Sound
