-- ===== src/Team/Duties.antt =====
-- app/api/team.py: every endpoint of the team keeps it sound and its owners in place.
use skladbase.Prelude.{ℕ, subst, ◌≡◌, refl, sym, ◌∙◌, String, Bool, Option, some, ◌==◌, leb, str_eq}
use skladbase.Prelude.Tables.{find}
use skladbase.Prelude.Finds.{find-key, All-find}
use skladbase.Models.{http_error, conflict, forbidden}
use skladbase.Session.{Action, Result, ok, err, raise_if, ◌>>=◌, ◌>>◌, Tx, look}
use skladbase.Session.Whole.{opened, after, passed}
use skladbase.Access.{Permission, Role, is_owner}
use skladbase.Team.{
  Member, Team, written, get_invite, get_role, get_member, create_invite, add_invite, new_invite,
  revoke_invite, revoke_found, save_invite, create_role, refuse_duplicate, add_role, new_role,
  RolePatch, patched, refuse_rename, save_role, update_role, update_found, owner_role_name,
  delete_role, delete_found, unless_held, count_holders, without_role, update_member_role,
  move_found, move_to, reassigned, update_member_permissions, override_found, overridden,
  delete_member, remove_found, without_member, save_member,
}
use skladbase.Team.Seats.{
  Sound, Seated, Upholds, same-Upholds, saved-Upholds, removed-Upholds, added_role-Upholds,
  saved_role-Upholds, removed_role-Upholds,
}
use skladbase.Team.Guards.{
  Dutiful, of_shop-found, get_invite-Still, get_role-Still, get_member-Still, refuse_rename-Still,
}

create_invite-Dutiful :
    (now : ℕ) (token : String) (by : Member) (s : Team)
    → Sound s
    → Dutiful s (create_invite now token by (opened s))
unfolding create_invite
create_invite-Dutiful now token by s sound =
    (same-Upholds s (add_invite (new_invite now token by) s) sound (still sound) refl, refl)
  where
    still : Sound s → Sound (add_invite (new_invite now token by) s)
    still h = record {
      roles_numbered = h.roles_numbered;
      members_numbered = h.members_numbered;
      seated = h.seated;
    }

revoke_invite-Dutiful :
    (now k : ℕ) (by : Member) (s : Team) → Sound s → Dutiful s (revoke_invite now k by (opened s))
unfolding revoke_invite
revoke_invite-Dutiful now k by s sound =
    after (Upholds s) (get_invite k by.shop_id) (revoke_found now) s (get_invite-Still k by.shop_id)
      λ i _. (
        same-Upholds s (save_invite (record i { revoked_at = some now }) s) sound
            (record {
              roles_numbered = sound.roles_numbered;
              members_numbered = sound.members_numbered;
              seated = sound.seated;
            })
            refl,
        refl,
      )

create_role-Dutiful :
    (name : String) (grants : Permission → Bool) (by : Member) (s : Team)
    → Sound s
    → Dutiful s (create_role name grants by (opened s))
unfolding create_role
create_role-Dutiful name grants by s sound =
    after (Upholds s) (refuse_duplicate by.shop_id name)
      (λ _. written (add_role (new_role by.shop_id name grants)) tt) s (λ t. refl)
      λ _ _. (added_role-Upholds s (new_role by.shop_id name grants) sound (λ id. refl), refl)

update_role-Dutiful :
    (k : ℕ) (payload : RolePatch) (by : Member) (s : Team)
    → Sound s
    → Dutiful s (update_role k payload by (opened s))
unfolding update_role
update_role-Dutiful k payload by s sound =
    after (Upholds s) (get_role k by.shop_id) (update_found by.shop_id payload) s
      (get_role-Still k by.shop_id)
      λ r e.
        after (Upholds s) (raise_if (str_eq r.name owner_role_name) (http_error forbidden))
          (λ _. refuse_rename by.shop_id r payload.name >> saved r) s (λ t. refl)
          λ _ _.
            after (Upholds s) (refuse_rename by.shop_id r payload.name) (λ _. saved r) s
              (refuse_rename-Still by.shop_id r payload.name)
              λ _ _. (
                saved_role-Upholds s k r (patched payload r) sound
                    (of_shop-found Role.shop_id by.shop_id (find Role.id k s.roles) (opened s) e).0
                    refl refl,
                refl,
              )
  where
    saved : Role → Action (Tx Team) Role
    saved r = written (save_role (patched payload r)) (patched payload r)

delete_role-Dutiful :
    (k : ℕ) (by : Member) (s : Team) → Sound s → Dutiful s (delete_role k by (opened s))
unfolding delete_role
delete_role-Dutiful k by s sound =
    after (Upholds s) (get_role k by.shop_id) (delete_found k) s (get_role-Still k by.shop_id)
      λ r _.
        after (Upholds s) (raise_if r.is_system (http_error conflict))
          (λ _. look (count_holders k) >>= unless_held k) s (λ t. refl)
          λ _ _.
            after (Upholds s) (raise_if (leb 1 (count_holders k s)) (http_error conflict))
              (λ _. written (without_role k) tt) s (λ t. refl)
              λ _ e. (
                removed_role-Upholds s k sound (passed (leb 1 (count_holders k s)) (opened s) _ e),
                refl,
              )

update_member_role-Dutiful :
    (k role : ℕ) (by : Member) (s : Team)
    → Sound s
    → Dutiful s (update_member_role k role by (opened s))
unfolding update_member_role
update_member_role-Dutiful k role by s sound =
    let shop = by.shop_id in
    after (Upholds s) (get_member k shop) (move_found shop role) s (get_member-Still k shop) λ m e.
      after (Upholds s) (raise_if (is_owner m.role) (http_error conflict))
        (λ _. get_role role shop >>= move_to m) s (λ t. refl)
        λ _ plain.
          after (Upholds s) (get_role role shop) (move_to m) s (get_role-Still role shop) λ r g.
            let (found, own) =
              of_shop-found Member.shop_id shop (find Member.id k s.members) (opened s) e in
            let (there, ours) =
              of_shop-found Role.shop_id shop (find Role.id role s.roles) (opened s) g in
            let keyed =
              subst (λ j. find Role.id j s.roles ≡ some r)
                (sym (find-key Role.id role s.roles there)) there in
            (
              saved-Upholds s k m (reassigned m r) sound found
                  (passed (is_owner m.role) (opened s) _ plain) refl (r, keyed, ours ∙ sym own),
              refl,
            )

-- The seat of a member who is in the table.
seat_of :
    (s : Team) (k : ℕ) (m : Member)
    → Sound s
    → find Member.id k s.members ≡ some m
    → Seated s.roles m
seat_of s k m sound e = All-find Member.id (Seated s.roles) k s.members sound.seated e

update_member_permissions-Dutiful :
    (k : ℕ) (changes : Permission → Option (Option Bool)) (by : Member) (s : Team)
    → Sound s
    → Dutiful s (update_member_permissions k changes by (opened s))
unfolding update_member_permissions
update_member_permissions-Dutiful k changes by s sound =
    let shop = by.shop_id in
    after (Upholds s) (get_member k shop) (override_found changes) s (get_member-Still k shop)
      λ m e.
        after (Upholds s) (raise_if (is_owner m.role) (http_error conflict))
          (λ _. written (save_member (overridden changes m)) (overridden changes m)) s (λ t. refl)
          λ _ plain.
            let found =
              (of_shop-found Member.shop_id shop (find Member.id k s.members) (opened s) e).0 in
            (
              saved-Upholds s k m (overridden changes m) sound found
                  (passed (is_owner m.role) (opened s) _ plain) refl (seat_of s k m sound found),
              refl,
            )

delete_member-Dutiful :
    (k : ℕ) (by : Member) (s : Team) → Sound s → Dutiful s (delete_member k by (opened s))
unfolding delete_member
delete_member-Dutiful k by s sound =
    let shop = by.shop_id in
    after (Upholds s) (get_member k shop) (remove_found by.id) s (get_member-Still k shop) λ m e.
      after (Upholds s) (raise_if (m.id == by.id) (http_error conflict))
        (λ _. raise_if (is_owner m.role) (http_error conflict) >> written (without_member m.id) tt)
        s (λ t. refl)
        λ _ _.
          after (Upholds s) (raise_if (is_owner m.role) (http_error conflict))
            (λ _. written (without_member m.id) tt) s (λ t. refl)
            λ _ plain.
              let found =
                (of_shop-found Member.shop_id shop (find Member.id k s.members) (opened s) e).0 in
              let keyed =
                subst (λ j. find Member.id j s.members ≡ some m)
                  (sym (find-key Member.id k s.members found)) found in
              (
                removed-Upholds s m.id m sound keyed (passed (is_owner m.role) (opened s) _ plain),
                refl,
              )

-- What an owner asks for.
pub data Duty : Type 0 where
  invites : String → Duty
  revokes : ℕ → Duty
  names : String → (Permission → Bool) → Duty
  renames : ℕ → RolePatch → Duty
  drops : ℕ → Duty
  moves : ℕ → ℕ → Duty
  overrides_of : ℕ → (Permission → Option (Option Bool)) → Duty
  removes : ℕ → Duty

abbrev pub forgets : {A : Type 0} → Result A × Tx Team → Result (Unit {0}) × Tx Team
forgets (ok a, t) = (ok tt, t)
forgets (err e, t) = (err e, t)

unfoldable pub perform : ℕ → Duty → Member → Action (Tx Team) (Unit {0})
perform now (invites token) by t = create_invite now token by t
perform now (revokes k) by t = revoke_invite now k by t
perform now (names name grants) by t = create_role name grants by t
perform now (renames k payload) by t = forgets (update_role k payload by t)
perform now (drops k) by t = delete_role k by t
perform now (moves k role) by t = forgets (update_member_role k role by t)
perform now (overrides_of k changes) by t = forgets (update_member_permissions k changes by t)
perform now (removes k) by t = delete_member k by t

forgets-Dutiful :
    {A : Type 0} (s : Team) (out : Result A × Tx Team) → Dutiful s out → Dutiful s (forgets out)
forgets-Dutiful s (ok a, t) h = h
forgets-Dutiful s (err e, t) h = h

-- In a sound team each endpoint is all or nothing: a raise has changed nothing, and a return has
-- committed a team in which each member's role exists and is of the member's shop, and every owner
-- is as before.
pub perform-Dutiful :
    (now : ℕ) (d : Duty) (by : Member) (s : Team)
    → Sound s
    → Dutiful s (perform now d by (opened s))
unfolding perform
perform-Dutiful now (invites token) by s h = create_invite-Dutiful now token by s h
perform-Dutiful now (revokes k) by s h = revoke_invite-Dutiful now k by s h
perform-Dutiful now (names name grants) by s h = create_role-Dutiful name grants by s h
perform-Dutiful now (renames k payload) by s h =
    forgets-Dutiful s _ (update_role-Dutiful k payload by s h)
perform-Dutiful now (drops k) by s h = delete_role-Dutiful k by s h
perform-Dutiful now (moves k role) by s h =
    forgets-Dutiful s _ (update_member_role-Dutiful k role by s h)
perform-Dutiful now (overrides_of k changes) by s h =
    forgets-Dutiful s _ (update_member_permissions-Dutiful k changes by s h)
perform-Dutiful now (removes k) by s h = delete_member-Dutiful k by s h
