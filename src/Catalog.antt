-- ===== src/Catalog.antt =====
-- app/services/catalog.py: the limits of a shop's plan, and the products that they freeze.
pub mod Frozen
pub mod Axes
pub mod Store
pub mod Variants
pub mod Counting
pub mod Soundness
pub mod Writes
pub mod Changes
use skladbase.Prelude.{
  ℕ, zero, suc, String, Bool, true, false, ◌&&◌, ◌||◌, not, Option, none, some, List, [], ◌∷◌, ◌==◌,
  ltb, leb, str_eq, if◌then◌else◌, keep, length, map,
}
use skladbase.Prelude.Tables.{select_one, find}
use skladbase.Models.{payment_required, SubStatus, Plan, PlanLimits, Subscription, later_than}
use skladbase.Access.{Checked, admitted, refused}

-- A product without its free-form attributes, which nothing here reads.
pub record Product : Type 0 where
  pub id : ℕ
  pub shop_id : ℕ
  pub template_id : Option ℕ
  pub name : String
  pub description : Option String
  pub is_demo : Bool
  pub archived : Bool
  pub created_at : ℕ

pub record Catalog : Type 0 where
  pub products : List Product
  pub subscriptions : List Subscription
  pub plans : List Plan

abbrev pub is_listed : ℕ → Product → Bool
is_listed shop_id p = p.shop_id == shop_id && not p.archived

unfoldable pub count_active_products : ℕ → Catalog → ℕ
count_active_products shop_id c = length (keep (is_listed shop_id) c.products)

abbrev pub free_limits_fallback : PlanLimits
free_limits_fallback = record { max_products = some 20; photos = false; integrations = false }

abbrev pub limits_or : PlanLimits → Option Plan → PlanLimits
limits_or fallback none = fallback
limits_or fallback (some plan) = plan.limits

unfoldable pub free_plan_limits : Catalog → PlanLimits
free_plan_limits c = limits_or free_limits_fallback (select_one (λ p. str_eq p.code "free") c.plans)

abbrev pub trial_limits : PlanLimits
trial_limits = record { max_products = none; photos = true; integrations = true }

abbrev pub own_plan_limits : Option ℕ → Catalog → PlanLimits
own_plan_limits none c = free_plan_limits c
own_plan_limits (some k) c = limits_or (free_plan_limits c) (find Plan.id k c.plans)

-- the limits by the status
abbrev pub limits_in : ℕ → Catalog → SubStatus → Subscription → PlanLimits
limits_in now c SubStatus.trial s =
    if later_than s.trial_ends_at now then trial_limits else free_plan_limits c
limits_in now c SubStatus.active s = own_plan_limits s.plan_id c
limits_in now c SubStatus.canceled s = own_plan_limits s.plan_id c
limits_in now c SubStatus.past_due s = own_plan_limits s.plan_id c
limits_in now c SubStatus.expired s = free_plan_limits c

abbrev pub limits_of : ℕ → Catalog → Option Subscription → PlanLimits
limits_of now c none = free_plan_limits c
limits_of now c (some s) = limits_in now c s.status s

unfoldable pub current_plan_limits : ℕ → ℕ → Catalog → PlanLimits
unfolding free_plan_limits
current_plan_limits now shop_id c =
    limits_of now c (select_one (λ s. s.shop_id == shop_id) c.subscriptions)

-- `.order_by(created_at.desc(), id.desc())`: which of two products comes first
abbrev pub newer : Product → Product → Bool
newer a b = ltb b.created_at a.created_at || a.created_at == b.created_at && ltb b.id a.id

unfoldable pub insert : Product → List Product → List Product
insert x [] = x ∷ []
insert x (y ∷ ys) = if newer x y then x ∷ y ∷ ys else y ∷ insert x ys

unfoldable pub newest_first : List Product → List Product
unfolding insert
newest_first [] = []
newest_first (x ∷ xs) = insert x (newest_first xs)

-- `all_ids[n:]` and `all_ids[:n]`
unfoldable pub drop : ℕ → List Product → List Product
drop zero xs = xs
drop (suc n) [] = []
drop (suc n) (x ∷ xs) = drop n xs

unfoldable pub take : ℕ → List Product → List Product
take zero xs = []
take (suc n) [] = []
take (suc n) (x ∷ xs) = x ∷ take n xs

abbrev pub listed : ℕ → Catalog → List Product
listed shop_id c = newest_first (keep (is_listed shop_id) c.products)

-- the products past the bound, if there is one
abbrev pub past_bound : Option ℕ → List Product → List Product
past_bound none ps = []
past_bound (some n) ps = if leb (length ps) n then [] else drop n ps

-- The frozen products; their ids are the set that the code returns.
unfoldable pub frozen_products : ℕ → ℕ → Catalog → List Product
unfolding current_plan_limits newest_first drop
frozen_products now shop_id c =
    past_bound (current_plan_limits now shop_id c).max_products (listed shop_id c)

abbrev pub refuse_if : Bool → Checked (Unit {0})
refuse_if b = if b then refused payment_required else admitted tt

abbrev pub within : Option ℕ → ℕ → Checked (Unit {0})
within none count = admitted tt
within (some n) count = refuse_if (leb n count)

unfoldable pub enforce_can_create_product : ℕ → ℕ → Catalog → Checked (Unit {0})
unfolding current_plan_limits count_active_products
enforce_can_create_product now shop_id c =
    within (current_plan_limits now shop_id c).max_products (count_active_products shop_id c)

-- `product_id in frozen`
unfoldable pub has_product : ℕ → List Product → Bool
has_product k [] = false
has_product k (p ∷ ps) = p.id == k || has_product k ps

unfoldable pub enforce_product_writable : ℕ → ℕ → ℕ → Catalog → Checked (Unit {0})
unfolding frozen_products has_product
enforce_product_writable now product_id shop_id c =
    refuse_if (has_product product_id (frozen_products now shop_id c))

unfoldable pub enforce_photos_allowed : ℕ → ℕ → Catalog → Checked (Unit {0})
unfolding current_plan_limits
enforce_photos_allowed now shop_id c = refuse_if (not (current_plan_limits now shop_id c).photos)
