-- ===== src/Team.antt =====
-- app/api/team.py: what the owner of a shop does with its roles, members and invites. An endpoint
-- that raises an HTTPException has written nothing.
pub mod Seats
pub mod Guards
pub mod Duties
pub mod Join
pub mod Bootstrap
pub mod Admission
pub mod Entry
use skladbase.Prelude.{
  ℕ, suc, ◌+◌, String, Bool, true, false, ◌&&◌, not, Option, none, some, List, [], ◌∷◌, ◌==◌, leb,
  ltb, str_eq, is_some, if◌then◌else◌, keep, length,
}
use skladbase.Prelude.Tables.{select_one, find, save}
use skladbase.Models.{http_error, not_found, conflict, forbidden, Shop, hours}
use skladbase.Session.{
  Action, pure, raise, or_raise, raise_if, ◌>>=◌, ◌>>◌, Tx, change, look, commit_tx,
}
use skladbase.Access.{MemberRole, Permission, Role, is_owner}

-- A row of `memberships` with the key of its role.
pub record Member : Type 0 where
  pub id : ℕ
  pub shop_id : ℕ
  pub tg_id : ℕ
  pub display_name : Option String
  pub role : MemberRole
  pub role_id : ℕ
  pub overrides : Permission → Option Bool

pub record Invite : Type 0 where
  pub id : ℕ
  pub shop_id : ℕ
  pub token : String
  pub created_by_tg_id : ℕ
  pub created_at : ℕ
  pub expires_at : ℕ
  pub revoked_at : Option ℕ

pub record Team : Type 0 where
  pub shops : List Shop
  pub roles : List Role
  pub members : List Member
  pub invites : List Invite
  pub next_shop : ℕ
  pub next_role : ℕ
  pub next_member : ℕ
  pub next_invite : ℕ

abbrev pub invite_ttl_hours : ℕ
invite_ttl_hours = 48

abbrev pub owner_role_name : String
owner_role_name = "Власник"

-- `Invite.is_active`
unfoldable pub is_active_invite : ℕ → Invite → Bool
is_active_invite now i = not (is_some i.revoked_at) && ltb now i.expires_at

abbrev pub new_invite : ℕ → String → Member → ℕ → Invite
new_invite now token membership id = record {
  id = id;
  shop_id = membership.shop_id;
  token = token;
  created_by_tg_id = membership.tg_id;
  created_at = now;
  expires_at = now + hours invite_ttl_hours;
  revoked_at = none;
}

abbrev pub add_invite : (ℕ → Invite) → Team → Team
add_invite i t = record t { invites = i t.next_invite ∷ t.invites; next_invite = suc t.next_invite }

-- Commit a change, and return.
abbrev pub written : {A : Type 0} → (Team → Team) → A → Action (Tx Team) A
written f a = change f >> commit_tx >> pure a

-- The token that `secrets` draws is an argument.
unfoldable pub create_invite : ℕ → String → Member → Action (Tx Team) (Unit {0})
create_invite now token membership = written (add_invite (new_invite now token membership)) tt

abbrev pub in_shop : {A : Type 0} → Bool → A → Action (Tx Team) A
in_shop true a = pure a
in_shop false a = raise (http_error not_found)

-- `session.get(A, id)`, and 404 for a row of another shop
abbrev pub of_shop : {A : Type 0} → (A → ℕ) → ℕ → Option A → Action (Tx Team) A
of_shop shop_of shop_id none = raise (http_error not_found)
of_shop shop_of shop_id (some a) = in_shop (shop_of a == shop_id) a

abbrev pub save_invite : Invite → Team → Team
save_invite i t = record t { invites = save Invite.id i t.invites }

abbrev pub revoke_found : ℕ → Invite → Action (Tx Team) (Unit {0})
revoke_found now i = written (save_invite (record i { revoked_at = some now })) tt

abbrev pub get_invite : ℕ → ℕ → Action (Tx Team) Invite
get_invite invite_id shop_id =
    look (λ t. find Invite.id invite_id t.invites) >>= of_shop Invite.shop_id shop_id

unfoldable pub revoke_invite : ℕ → ℕ → Member → Action (Tx Team) (Unit {0})
revoke_invite now invite_id membership =
    get_invite invite_id membership.shop_id >>= revoke_found now

abbrev pub has_name : ℕ → String → Role → Bool
has_name shop_id name r = r.shop_id == shop_id && str_eq r.name name

-- whether the shop has a role with that name
abbrev pub refuse_duplicate : ℕ → String → Action (Tx Team) (Unit {0})
refuse_duplicate shop_id name =
    look (λ t. select_one (has_name shop_id name) t.roles) >>= λ duplicate.
    raise_if (is_some duplicate) (http_error conflict)

abbrev pub new_role : ℕ → String → (Permission → Bool) → ℕ → Role
new_role shop_id name grants id = record {
  id = id;
  shop_id = shop_id;
  name = name;
  grants = grants;
  is_system = false;
}

abbrev pub add_role : (ℕ → Role) → Team → Team
add_role r t = record t { roles = r t.next_role ∷ t.roles; next_role = suc t.next_role }

unfoldable pub create_role : String → (Permission → Bool) → Member → Action (Tx Team) (Unit {0})
create_role name grants membership =
    refuse_duplicate membership.shop_id name
    >> written (add_role (new_role membership.shop_id name grants)) tt

abbrev pub get_role : ℕ → ℕ → Action (Tx Team) Role
get_role role_id shop_id = look (λ t. find Role.id role_id t.roles) >>= of_shop Role.shop_id shop_id

-- What is set of a role: a name that is not null, and entries.
pub record RolePatch : Type 0 where
  pub name : Option String
  pub grants : Permission → Option Bool

abbrev pub or_old : {A : Type 0} → Option A → A → A
or_old none old = old
or_old (some new) old = new

abbrev pub patched : RolePatch → Role → Role
patched payload r = record r {
  name = or_old payload.name r.name;
  grants = λ perm. or_old (payload.grants perm) (r.grants perm);
}

abbrev pub refuse_rename : ℕ → Role → Option String → Action (Tx Team) (Unit {0})
refuse_rename shop_id r none = pure tt
refuse_rename shop_id r (some name) =
    if str_eq name r.name then pure tt else refuse_duplicate shop_id name

abbrev pub save_role : Role → Team → Team
save_role r t = record t { roles = save Role.id r t.roles }

abbrev pub update_found : ℕ → RolePatch → Role → Action (Tx Team) Role
update_found shop_id payload r =
    raise_if (str_eq r.name owner_role_name) (http_error forbidden)
    >> (refuse_rename shop_id r payload.name
        >> written (save_role (patched payload r)) (patched payload r))

unfoldable pub update_role : ℕ → RolePatch → Member → Action (Tx Team) Role
update_role role_id payload membership =
    get_role role_id membership.shop_id >>= update_found membership.shop_id payload

abbrev pub has_role : ℕ → Member → Bool
has_role role_id m = m.role_id == role_id

abbrev pub count_holders : ℕ → Team → ℕ
count_holders role_id t = length (keep (has_role role_id) t.members)

abbrev pub without_role : ℕ → Team → Team
without_role role_id t = record t { roles = keep (λ r. not (r.id == role_id)) t.roles }

abbrev pub unless_held : ℕ → ℕ → Action (Tx Team) (Unit {0})
unless_held role_id holders =
    raise_if (leb 1 holders) (http_error conflict) >> written (without_role role_id) tt

abbrev pub delete_found : ℕ → Role → Action (Tx Team) (Unit {0})
delete_found role_id r =
    raise_if r.is_system (http_error conflict)
    >> (look (count_holders role_id) >>= unless_held role_id)

unfoldable pub delete_role : ℕ → Member → Action (Tx Team) (Unit {0})
delete_role role_id membership = get_role role_id membership.shop_id >>= delete_found role_id

abbrev pub get_member : ℕ → ℕ → Action (Tx Team) Member
get_member membership_id shop_id =
    look (λ t. find Member.id membership_id t.members) >>= of_shop Member.shop_id shop_id

abbrev pub save_member : Member → Team → Team
save_member m t = record t { members = save Member.id m t.members }

-- The new role, with no own entries.
abbrev pub reassigned : Member → Role → Member
reassigned m r = record m { role_id = r.id; overrides = λ perm. none }

abbrev pub move_to : Member → Role → Action (Tx Team) Member
move_to m r = written (save_member (reassigned m r)) (reassigned m r)

abbrev pub move_found : ℕ → ℕ → Member → Action (Tx Team) Member
move_found shop_id role_id m =
    raise_if (is_owner m.role) (http_error conflict) >> (get_role role_id shop_id >>= move_to m)

unfoldable pub update_member_role : ℕ → ℕ → Member → Action (Tx Team) Member
update_member_role membership_id role_id membership =
    get_member membership_id membership.shop_id >>= move_found membership.shop_id role_id

-- The entries of the payload that are set; null takes an own entry away.
abbrev pub overridden : (Permission → Option (Option Bool)) → Member → Member
overridden changes m = record m { overrides = λ perm. or_old (changes perm) (m.overrides perm) }

abbrev pub override_found : (Permission → Option (Option Bool)) → Member → Action (Tx Team) Member
override_found changes m =
    raise_if (is_owner m.role) (http_error conflict)
    >> written (save_member (overridden changes m)) (overridden changes m)

unfoldable pub update_member_permissions :
    ℕ → (Permission → Option (Option Bool)) → Member → Action (Tx Team) Member
update_member_permissions membership_id changes membership =
    get_member membership_id membership.shop_id >>= override_found changes

abbrev pub without_member : ℕ → Team → Team
without_member id t = record t { members = keep (λ m. not (m.id == id)) t.members }

abbrev pub remove_found : ℕ → Member → Action (Tx Team) (Unit {0})
remove_found own_id m =
    raise_if (m.id == own_id) (http_error conflict)
    >> (raise_if (is_owner m.role) (http_error conflict) >> written (without_member m.id) tt)

unfoldable pub delete_member : ℕ → Member → Action (Tx Team) (Unit {0})
delete_member membership_id membership =
    get_member membership_id membership.shop_id >>= remove_found membership.id
