-- ===== src/Samples/AccessRuns.antt =====
-- The theorems on access, plans and the limiter, on small tables.
use skladbase.Prelude.{
  ℕ, String, Option, ◌+◌, ◌*◌, ◌≤◌, ◌<◌, ◌≡◌, ◌↔◌, ◌++◌, refl, true, false, none, some, [], ◌∷◌,
  arith, keep, All,
}
use skladbase.Prelude.Tables.{select_one}
use skladbase.Models.{Plan, SubPeriod, Shop}
use skladbase.Access.{
  MemberRole, Permission, Membership, admitted, require_permission_writable, resolve_membership,
}
use skladbase.Access.Rules.{
  Permitted, Subscribed, require_permission_writable-Permitted, Own, resolve_membership-Own,
}
use skladbase.Access.ApiKey.{require_api_key, or_unauthorized, has_key, require_api_key-select_one}
use skladbase.Checkout.Webhooks.{is_ascii}
use skladbase.Samples.ParcelRuns.{cafe}
use skladbase.Catalog.{
  Product, Catalog, frozen_products, is_listed, listed, take, current_plan_limits, free_plan_limits,
}
use skladbase.Catalog.Frozen.{rank, frozen_products-rank}
use skladbase.Security.Window.{recent, admitted_times, hit-bounded}
use skladbase.Support.{SupportBan, Bans, get_ban, mute_user, remaining_mute_minutes}
use skladbase.Support.Mutes.{mute_user-minutes}
use skladbase.Samples.BillingRuns.{lapsed}

abbrev clerk : Membership
clerk = record {
  id = 5;
  shop_id = 7;
  tg_id = 900;
  display_name = none;
  role = MemberRole.manager;
  role_ref = record { id = 1; shop_id = 7; name = "M"; grants = λ p. true; is_system = true };
  overrides = λ p. none;
}

require_permission_writable-Permitted_example :
    (require_permission_writable Permission.can_manage_stock 1000 (lapsed ∷ []) clerk
      ≡ admitted clerk)
    ↔ (Permitted clerk Permission.can_manage_stock × Subscribed 7 (lapsed ∷ []))
require_permission_writable-Permitted_example =
    require_permission_writable-Permitted Permission.can_manage_stock 1000 (lapsed ∷ []) clerk

resolve_membership-Own_example : (tg_id : ℕ) × (some 900 ≡ some tg_id) × Own tg_id (some 7) clerk
unfolding resolve_membership select_one
resolve_membership-Own_example =
    resolve_membership-Own false true (some 7) (clerk ∷ []) (some 900) clerk refl

abbrev item : ℕ → ℕ → Product
item id at = record {
  id = id;
  shop_id = 7;
  template_id = none;
  name = "item";
  description = none;
  is_demo = false;
  archived = false;
  created_at = at;
}

abbrev free : Plan
free = record {
  id = 1;
  code = "free";
  name = "Free";
  period = SubPeriod.month;
  price_uah = 0;
  price_stars = 0;
  limits = record { max_products = some 1; photos = false; integrations = false };
  is_on_sale = true;
}

abbrev shop_items : Catalog
shop_items = record {
  products = item 3 5 ∷ item 2 9 ∷ item 1 5 ∷ [];
  subscriptions = [];
  plans = free ∷ [];
}

frozen_products-rank_example :
    All
      (λ p. 1 ≤ rank p (keep (is_listed 7) shop_items.products))
      (frozen_products 1000 7 shop_items)
    × All (λ p. rank p (keep (is_listed 7) shop_items.products) < 1) (take 1 (listed 7 shop_items))
    × (take 1 (listed 7 shop_items) ++ frozen_products 1000 7 shop_items ≡ listed 7 shop_items)
unfolding current_plan_limits free_plan_limits select_one
frozen_products-rank_example =
    frozen_products-rank 1000 7 1 4 shop_items (omega arith, (omega arith, (omega arith, tt))) refl

hit-bounded_example :
    recent 60 90 (
      admitted_times "ip"
        (record { max_requests = 1; window_seconds = 60; hits = λ j. [] })
        []
        (("ip", 10) ∷ ("ip", 20) ∷ ("ip", 80) ∷ []))
    ≤ 1
hit-bounded_example =
    hit-bounded 1 60 90 "ip" (("ip", 10) ∷ ("ip", 20) ∷ ("ip", 80) ∷ [])
      (omega arith, (omega arith, (omega arith, omega arith)))

abbrev troublemaker : SupportBan
troublemaker = record { id = 1; tg_id = 900; muted_until = none; banned = true; created_at = 1 }

abbrev bans : Bans
bans = record { rows = troublemaker ∷ []; next_ban = 2 }

mute_user-minutes_example :
    ((200 < 100 + 3600)
      → (m : ℕ) × (remaining_mute_minutes 200 (get_ban 900 (mute_user 100 900 3600 bans)) ≡ some m)
        × (100 + 3600 ≤ 200 + m * 60)
        × (200 + m * 60 < 100 + 3600 + 60))
    × ((100 + 3600 ≤ 200)
        → remaining_mute_minutes 200 (get_ban 900 (mute_user 100 900 3600 bans)) ≡ none)
mute_user-minutes_example = mute_user-minutes 100 200 900 3600 bans (omega arith, tt)

abbrev plain : String → Option String
plain encrypted = some encrypted

abbrev keyed : Shop
keyed = record cafe { api_key_prefix = some "abcdefgh"; api_key_encrypted = some "abcdefghij" }

abbrev twin : Shop
twin = record keyed { id = 8; api_key_encrypted = some "abcdefghxy" }

require_api_key-select_one_example :
    require_api_key plain (some "abcdefghij") (twin ∷ keyed ∷ [])
    ≡ or_unauthorized plain (select_one (has_key plain "abcdefghij") (twin ∷ keyed ∷ []))
unfolding is_ascii
require_api_key-select_one_example =
    require_api_key-select_one plain "abcdefghij" (twin ∷ keyed ∷ []) refl refl
