-- ===== src/Team/Bootstrap.antt =====
-- app/services/bootstrap.py: `bootstrap_shop`. The shop's name and slug are texts made of the user's;
-- what a new shop is seeded with, and its trial, stand in other tables.
use skladbase.Prelude.{
  ℕ, suc, String, Bool, true, false, Option, none, some, ◌∷◌, str_eq, is_some, has_text,
  if◌then◌else◌,
}
use skladbase.Prelude.Tables.{select_one}
use skladbase.Models.{integrity_error, Shop, ShopStatus}
use skladbase.Session.{Action, pure, raise, ◌>>=◌, ◌>>◌, Tx, change, look, commit_tx, rollback_tx}
use skladbase.Access.{MemberRole, Permission, Role}
use skladbase.Team.{Member, Invite, Team, owner_role_name}
use skladbase.Team.Join.{
  TelegramUser, InviteStatus, invite_invalid, manager_role_name, new_member, arrives, Entry,
  find_membership, parse_invite_token, join_existing_member, join_via_invite, find_active_invite,
}

abbrev pub new_shop : ℕ → TelegramUser → String → String → ℕ → Shop
new_shop now user name slug id = record {
  id = id;
  owner_tg_id = user.id;
  name = name;
  slug = slug;
  logo_url = none;
  accent_color = "#2E7D32";
  public_catalog_enabled = false;
  website_url = none;
  api_key_encrypted = none;
  api_key_prefix = none;
  webhook_url = none;
  webhook_secret_encrypted = none;
  np_api_key_encrypted = none;
  np_sender_city_ref = none;
  np_sender_city_name = none;
  np_sender_warehouse_ref = none;
  np_sender_warehouse_name = none;
  np_sender_phone = none;
  np_sender_name = none;
  status = ShopStatus.active;
  created_at = now;
}

abbrev pub all_granted : Permission → Bool
all_granted perm = true

abbrev pub system_role : ℕ → String → ℕ → Role
system_role shop_id name id = record {
  id = id;
  shop_id = shop_id;
  name = name;
  grants = all_granted;
  is_system = true;
}

-- The shop, its two roles and its owner.
abbrev pub add_shop : Shop → TelegramUser → Team → Team
add_shop shop user t = record t {
  shops = shop ∷ t.shops;
  roles =
      system_role shop.id manager_role_name (suc t.next_role)
      ∷ system_role shop.id owner_role_name t.next_role
      ∷ t.roles;
  members = new_member user shop.id MemberRole.owner t.next_role t.next_member ∷ t.members;
  next_shop = suc t.next_shop;
  next_role = suc (suc t.next_role);
  next_member = suc t.next_member;
}

abbrev pub has_slug : String → Shop → Bool
has_slug slug shop = str_eq shop.slug slug

abbrev pub status_of : Option String → Option InviteStatus
status_of none = none
status_of (some token) = some invite_invalid

abbrev pub as_existing : Option Member → Action (Tx Team) Entry
as_existing none = raise integrity_error
as_existing (some existing) = pure (existing, none)

abbrev pub opens :
    ℕ → TelegramUser → String → String → Option String → Team → Action (Tx Team) Entry
opens now user name slug token t =
    change (add_shop (new_shop now user name slug t.next_shop) user)
    >> commit_tx
    >> pure
        (new_member user t.next_shop MemberRole.owner t.next_role t.next_member, status_of token)

abbrev pub whole : Team → Team
whole t = t

-- The unique slug, at the flush.
abbrev pub after_shop :
    ℕ → TelegramUser → String → String → Option String → Bool → Action (Tx Team) Entry
after_shop now user name slug token true =
    rollback_tx >> (look (λ t. find_membership user.id t.members) >>= as_existing)
after_shop now user name slug token false = look whole >>= opens now user name slug token

abbrev pub create_shop :
    ℕ → TelegramUser → String → String → Option String → (Team → Team) → Action (Tx Team) Entry
create_shop now user name slug token rival =
    arrives rival
    >> (look (λ t. is_some (select_one (has_slug slug) t.shops))
        >>= after_shop now user name slug token)

abbrev pub by_first_invite :
    ℕ
    → TelegramUser
    → String
    → String
    → Option String
    → (Team → Team)
    → Option Invite
    → Action (Tx Team) Entry
by_first_invite now user name slug token rival none = create_shop now user name slug token rival
by_first_invite now user name slug token rival (some i) = join_via_invite user i rival

-- `await _find_active_invite(session, invite_token) if invite_token else None`
abbrev pub invite_of : ℕ → Option String → Team → Option Invite
invite_of now none t = none
invite_of now (some token) t =
    if has_text (some token) then find_active_invite now token t else none

abbrev pub unless_member :
    ℕ
    → TelegramUser
    → String
    → String
    → Option String
    → (Team → Team)
    → Option Member
    → Action (Tx Team) Entry
unless_member now user name slug token rival (some existing) =
    join_existing_member now user existing token rival
unless_member now user name slug token rival none =
    look (invite_of now token) >>= by_first_invite now user name slug token rival

unfoldable pub bootstrap_shop :
    ℕ → TelegramUser → String → String → Option String → (Team → Team) → Action (Tx Team) Entry
unfolding find_membership parse_invite_token join_existing_member
bootstrap_shop now user name slug start_param rival =
    look (λ t. find_membership user.id t.members)
    >>= unless_member now user name slug (parse_invite_token start_param) rival
