-- ===== src/Access.antt =====
-- app/deps.py: who may make a request, for which shop, and with which rights.
pub mod Rules
pub mod ApiKey
use skladbase.Prelude.{
  ℕ, String, Bool, true, false, ◌&&◌, not, Option, none, some, List, [], ◌∷◌, ◌==◌, ltb,
  if◌then◌else◌, is_some, keep,
}
use skladbase.Prelude.Tables.{select_one}
use skladbase.Models.{
  HttpStatus, unauthorized, forbidden, payment_required, too_many_requests, Subscription,
  is_writable,
}

pub data MemberRole : Type 0 where
  owner manager : MemberRole

-- the six columns `can_…`
pub data Permission : Type 0 where
  can_view_inventory can_edit_products can_manage_reservations : Permission
  can_manage_stock can_view_finance can_manage_billing : Permission

pub record Role : Type 0 where
  pub id : ℕ
  pub shop_id : ℕ
  pub name : String
  pub grants : Permission → Bool
  pub is_system : Bool

-- A row with its role loaded; `overrides` are its own six columns, which may be NULL.
pub record Membership : Type 0 where
  pub id : ℕ
  pub shop_id : ℕ
  pub tg_id : ℕ
  pub display_name : Option String
  pub role : MemberRole
  pub role_ref : Role
  pub overrides : Permission → Option Bool

abbrev pub is_owner : MemberRole → Bool
is_owner MemberRole.owner = true
is_owner MemberRole.manager = false

-- A check that passes with a value, or ends the request with a status.
pub data Checked (A : Type 0) : Type 0 where
  admitted : A → Checked A
  refused : HttpStatus → Checked A

abbrev pub and_then : {A B : Type 0} → Checked A → (A → Checked B) → Checked B
and_then (admitted a) f = f a
and_then (refused c) f = refused c

-- An own entry wins over the role's.
abbrev pub override_or : Option Bool → Bool → Bool
override_or (some override) granted = override
override_or none granted = granted

unfoldable pub effective_permission : Membership → Permission → Bool
effective_permission m perm = override_or (m.overrides perm) (m.role_ref.grants perm)

unfoldable pub check_permission : Membership → Permission → Checked (Unit {0})
check_permission m perm =
    if is_owner m.role
    then admitted tt
    else if not (effective_permission m perm)
    then refused forbidden
    else admitted tt

-- `subscription is None or not subscription.is_writable`
abbrev pub writable_or : ℕ → Option Subscription → Checked (Unit {0})
writable_or now none = refused payment_required
writable_or now (some s) = if not (is_writable now s) then refused payment_required else admitted tt

unfoldable pub check_writable : ℕ → ℕ → List Subscription → Checked (Unit {0})
check_writable now shop_id subs = writable_or now (select_one (λ s. s.shop_id == shop_id) subs)

unfoldable pub require_owner : Membership → Checked Membership
require_owner m = if is_owner m.role then admitted m else refused forbidden

unfoldable pub require_writable : ℕ → List Subscription → Membership → Checked Membership
require_writable now subs m = and_then (check_writable now m.shop_id subs) (λ _. admitted m)

unfoldable pub require_permission : Permission → Membership → Checked Membership
require_permission perm m = and_then (check_permission m perm) (λ _. admitted m)

unfoldable pub require_permission_writable :
    Permission → ℕ → List Subscription → Membership → Checked Membership
require_permission_writable perm now subs m =
    and_then (check_permission m perm)
      λ _. and_then (check_writable now m.shop_id subs) λ _. admitted m

-- `.where(tg_id == …).order_by(Membership.id).limit(1)`
abbrev pub earlier : Membership → Option Membership → Option Membership
earlier m none = some m
earlier m (some o) = if ltb o.id m.id then some o else some m

unfoldable pub first_membership : ℕ → List Membership → Option Membership
first_membership tg_id [] = none
first_membership tg_id (m ∷ ms) =
    let rest = first_membership tg_id ms in if m.tg_id == tg_id then earlier m rest else rest

abbrev pub is_member_of : ℕ → ℕ → Membership → Bool
is_member_of tg_id shop_id m = m.tg_id == tg_id && m.shop_id == shop_id

-- What a request is answered with: a membership, or what `bootstrap_shop` makes of it.
pub data Resolved : Type 0 where
  member : Membership → Resolved
  bootstraps : Resolved

abbrev pub or_bootstrap : Bool → Bool → Option Membership → Checked Resolved
or_bootstrap may_bootstrap has_invite none =
    if may_bootstrap then admitted bootstraps else refused too_many_requests
or_bootstrap may_bootstrap has_invite (some m) =
    if has_invite then admitted bootstraps else admitted (member m)

abbrev pub or_forbidden : Option Membership → Checked Resolved
or_forbidden none = refused forbidden
or_forbidden (some m) = admitted (member m)

-- `tg_id` is the user of the start data if its signature is valid; `has_invite` whether it carries
-- an invite's token; `may_bootstrap` what the limiter answers.
unfoldable pub resolve_membership :
    Option ℕ → Bool → Bool → Option ℕ → List Membership → Checked Resolved
resolve_membership none has_invite may_bootstrap x_shop_id ms = refused unauthorized
resolve_membership (some tg_id) has_invite may_bootstrap (some shop_id) ms =
    or_forbidden (select_one (is_member_of tg_id shop_id) ms)
resolve_membership (some tg_id) has_invite may_bootstrap none ms =
    or_bootstrap may_bootstrap has_invite (first_membership tg_id ms)
