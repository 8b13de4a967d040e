-- ===== src/Team/Join.antt =====
-- app/services/bootstrap.py: how a user comes to a membership, by an invite or with a shop of its own.
-- `rival` is what another request has committed before this one flushes.
use skladbase.Prelude.{
  ℕ, suc, String, Bool, true, false, ◌&&◌, Option, none, some, List, [], ◌∷◌, ◌==◌, ltb, str_eq,
  is_some, has_text, if◌then◌else◌,
}
use skladbase.Prelude.Tables.{select_one, find}
use skladbase.Prelude.Texts.{after_prefix}
use skladbase.Models.{server_error, integrity_error, Shop, ShopStatus}
use skladbase.Session.{
  Action, pure, raise, or_raise, ◌>>=◌, ◌>>◌, Tx, change, look, commit_tx, rollback_tx,
}
use skladbase.Access.{MemberRole, Permission, Role}
use skladbase.Team.{Member, Invite, Team, is_active_invite}

abbrev pub invite_prefix : String
invite_prefix = "invite_"

abbrev pub manager_role_name : String
manager_role_name = "Менеджер"

pub record TelegramUser : Type 0 where
  pub id : ℕ
  pub first_name : String

-- The second of what is returned; it may be none.
pub data InviteStatus : Type 0 where
  joined already_in_shop invite_invalid : InviteStatus

unfoldable pub parse_invite_token : Option String → Option String
unfolding after_prefix
parse_invite_token none = none
parse_invite_token (some start_param) = after_prefix invite_prefix start_param

abbrev pub earlier : Member → Option Member → Option Member
earlier m none = some m
earlier m (some o) = if ltb o.id m.id then some o else some m

-- `_find_membership`
unfoldable pub find_membership : ℕ → List Member → Option Member
find_membership tg_id [] = none
find_membership tg_id (m ∷ ms) =
    let rest = find_membership tg_id ms in if m.tg_id == tg_id then earlier m rest else rest

abbrev pub is_seat : ℕ → ℕ → Member → Bool
is_seat tg_id shop_id m = m.tg_id == tg_id && m.shop_id == shop_id

-- `_find_membership_in_shop`
abbrev pub find_membership_in_shop : ℕ → ℕ → Team → Option Member
find_membership_in_shop tg_id shop_id t = select_one (is_seat tg_id shop_id) t.members

abbrev pub is_system_role : ℕ → String → Role → Bool
is_system_role shop_id name r = r.shop_id == shop_id && (str_eq r.name name && r.is_system)

-- `_get_system_role`
abbrev pub get_system_role : ℕ → String → Action (Tx Team) Role
get_system_role shop_id name =
    look (λ t. select_one (is_system_role shop_id name) t.roles) >>= λ r. or_raise r server_error

abbrev pub is_open : Option Shop → Bool
is_open none = false
is_open (some shop) = elim shop.status [ ShopStatus.active ↦ true | ShopStatus.suspended ↦ false ]

abbrev pub if_usable : ℕ → Team → Option Invite → Option Invite
if_usable now t none = none
if_usable now t (some i) =
    if is_active_invite now i && is_open (find Shop.id i.shop_id t.shops) then some i else none

-- `_find_active_invite`
unfoldable pub find_active_invite : ℕ → String → Team → Option Invite
unfolding is_active_invite
find_active_invite now token t = if_usable now t (select_one (λ i. str_eq i.token token) t.invites)

-- `user.first_name or None`
abbrev pub shown_name : String → Option String
shown_name name = if has_text (some name) then some name else none

abbrev pub no_overrides : Permission → Option Bool
no_overrides perm = none

abbrev pub new_member : TelegramUser → ℕ → MemberRole → ℕ → ℕ → Member
new_member user shop_id role role_id id = record {
  id = id;
  shop_id = shop_id;
  tg_id = user.id;
  display_name = shown_name user.first_name;
  role = role;
  role_id = role_id;
  overrides = no_overrides;
}

abbrev pub add_member : (ℕ → Member) → Team → Team
add_member m t = record t { members = m t.next_member ∷ t.members; next_member = suc t.next_member }

-- Another request's commit, which a query sees from here on.
abbrev pub arrives : (Team → Team) → Action (Tx Team) (Unit {0})
arrives rival = change rival >> commit_tx

abbrev pub Entry : Type 0
Entry = Member × Option InviteStatus

abbrev pub as_joined : Option Member → Action (Tx Team) Entry
as_joined none = raise integrity_error
as_joined (some existing) = pure (existing, some joined)

abbrev pub enters : (ℕ → Member) → ℕ → Action (Tx Team) Entry
enters m id = change (add_member m) >> commit_tx >> pure (m id, some joined)

-- The unique pair of shop and user, at the flush.
abbrev pub after_insert : ℕ → ℕ → (ℕ → Member) → Bool → Action (Tx Team) Entry
after_insert tg_id shop_id m true =
    rollback_tx >> (look (find_membership_in_shop tg_id shop_id) >>= as_joined)
after_insert tg_id shop_id m false = look Team.next_member >>= enters m

abbrev pub insert_member : ℕ → ℕ → (ℕ → Member) → Action (Tx Team) Entry
insert_member tg_id shop_id m =
    look (λ t. is_some (find_membership_in_shop tg_id shop_id t)) >>= after_insert tg_id shop_id m

abbrev pub join_with : TelegramUser → Invite → (Team → Team) → Role → Action (Tx Team) Entry
join_with user i rival r =
    arrives rival
    >> insert_member user.id i.shop_id (new_member user i.shop_id MemberRole.manager r.id)

-- `_join_via_invite`
unfoldable pub join_via_invite : TelegramUser → Invite → (Team → Team) → Action (Tx Team) Entry
join_via_invite user i rival =
    get_system_role i.shop_id manager_role_name >>= join_with user i rival

abbrev pub unless_there :
    TelegramUser → Invite → (Team → Team) → Option Member → Action (Tx Team) Entry
unless_there user i rival (some same_shop) = pure (same_shop, some already_in_shop)
unless_there user i rival none = join_via_invite user i rival

abbrev pub by_invite :
    TelegramUser → Member → (Team → Team) → Option Invite → Action (Tx Team) Entry
by_invite user existing rival none = pure (existing, some invite_invalid)
by_invite user existing rival (some i) =
    look (find_membership_in_shop user.id i.shop_id) >>= unless_there user i rival

-- `_join_existing_member`
unfoldable pub join_existing_member :
    ℕ → TelegramUser → Member → Option String → (Team → Team) → Action (Tx Team) Entry
unfolding join_via_invite find_active_invite
join_existing_member now user existing none rival = pure (existing, none)
join_existing_member now user existing (some token) rival =
    look (find_active_invite now token) >>= by_invite user existing rival
