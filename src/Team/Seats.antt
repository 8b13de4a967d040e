-- ===== src/Team/Seats.antt =====
-- app/api/team.py: what every change of a team keeps.
use skladbase.Prelude.{
  ℕ, ◌≡◌, ◌≢◌, refl, sym, ap, ◌∙◌, subst, inl, inr, Bool, true, false, Option, none, some, List, [],
  ◌∷◌, ◌==◌, arith, keep, length, leb, All, All-imp, Bool-cases,
}
use skladbase.Prelude.Tables.{find, save, find-save, Below, Below-save, All-save}
use skladbase.Prelude.Finds.{
  without, find-key, find-Below, find_under, find-without, without-Below, All-found,
}
use skladbase.Access.{Role, is_owner}
use skladbase.Team.{
  Member, Team, has_role, count_holders, without_role, without_member, save_member, save_role,
  add_role,
}

-- The role of a member is in the table, and of the member's shop.
abbrev pub Seated : List Role → Member → Type 0
Seated roles m = (r : Role) × (find Role.id m.role_id roles ≡ some r) × (r.shop_id ≡ m.shop_id)

pub record Sound (t : Team) : Type 0 where
  pub roles_numbered : Below Role.id t.next_role t.roles
  pub members_numbered : Below Member.id t.next_member t.members
  pub seated : All (Seated t.roles) t.members

-- The owners of a table are in another one as they were.
abbrev pub Owns : List Member → Member → Type 0
Owns new m = (is_owner m.role ≡ true) → (find Member.id m.id new ≡ some m)

-- The tables are sound, and no owner was changed or removed.
pub record Upholds (s t : Team) : Type 0 where
  pub sound : Sound t
  pub owners : All (Owns t.members) s.members

-- An owner that the change did not touch.
kept-Owns :
    (t : Team) (new : List Member)
    → Sound t
    → ((m : Member)
        → is_owner m.role ≡ true
        → find Member.id m.id t.members ≡ some m
        → find Member.id m.id new ≡ some m)
    → All (Owns new) t.members
kept-Owns t new sound h =
    All-imp _ _ t.members (All-found Member.id t.next_member t.members sound.members_numbered)
      λ m e o. h m o e

-- A change that leaves the members alone.
pub same-Upholds : (s t : Team) → Sound s → Sound t → t.members ≡ s.members → Upholds s t
same-Upholds s t before now same = record {
  sound = now;
  owners = rw same (kept-Owns s s.members before (λ m o e. e));
}

abbrev role_is : Option Member → Bool
role_is none = false
role_is (some m) = is_owner m.role

-- The member with a key is not an owner, so an owner has another key.
apart :
    (s : Team) (k : ℕ) (v m : Member)
    → find Member.id k s.members ≡ some v
    → is_owner v.role ≡ false
    → is_owner m.role ≡ true
    → find Member.id m.id s.members ≡ some m
    → m.id ≢ k
apart s k v m e plain owner found same =
    let at = subst (λ j. find Member.id j s.members ≡ some m) same found in
    let both : is_owner v.role ≡ is_owner m.role = ap role_is (sym e ∙ at) in
    absurd (ground (arith, sym plain ∙ both ∙ owner))

pub saved-Upholds :
    (s : Team) (k : ℕ) (v w : Member)
    → Sound s
    → find Member.id k s.members ≡ some v
    → is_owner v.role ≡ false
    → w.id ≡ v.id
    → Seated s.roles w
    → Upholds s (save_member w s)
saved-Upholds s k v w sound e plain same seat = record {
  sound = record {
    roles_numbered = sound.roles_numbered;
    members_numbered = Below-save Member.id s.next_member w s.members sound.members_numbered;
    seated =
        All-save Member.id (Seated s.roles) (Seated s.roles) w s.members sound.seated (λ y ne h. h)
          seat;
  };
  owners = kept-Owns s (save Member.id w s.members) sound λ m o found.
      let other = apart s k v m e plain o found in
      let miss : (w.id == m.id) ≡ false = ground (arith, same, find-key Member.id k s.members e) in
      find-save Member.id m.id w s.members found ∙ rw miss refl;
}

All-keep :
    (P : Member → Type 0) (f : Member → Bool) (ms : List Member) → All P ms → All P (keep f ms)
All-keep P f [] h = tt
All-keep P f (m ∷ ms) h = elim (Bool-cases (f m)) [
  | inl t ↦ rw t (h.0, All-keep P f ms h.1)
  | inr e ↦ rw e (All-keep P f ms h.1)
]

pub removed-Upholds :
    (s : Team) (k : ℕ) (v : Member)
    → Sound s
    → find Member.id k s.members ≡ some v
    → is_owner v.role ≡ false
    → Upholds s (without_member k s)
removed-Upholds s k v sound e plain = record {
  sound = record {
    roles_numbered = sound.roles_numbered;
    members_numbered = without-Below Member.id s.next_member k s.members sound.members_numbered;
    seated = All-keep (Seated s.roles) _ s.members sound.seated;
  };
  owners =
      kept-Owns s (without Member.id k s.members) sound λ m o found.
        find-without Member.id m.id k s.members (apart s k v m e plain o found) ∙ found;
}

-- A role more, a role changed, a role less.
pub added_role-Upholds :
    (s : Team) (r : ℕ → Role) → Sound s → ((id : ℕ) → (r id).id ≡ id) → Upholds s (add_role r s)
added_role-Upholds s r sound i =
    same-Upholds s (add_role r s) sound
      (record {
        roles_numbered = (
          omega (arith, i s.next_role),
          subst (λ k. Below Role.id k s.roles) (sym (i s.next_role)) sound.roles_numbered,
        );
        members_numbered = sound.members_numbered;
        seated = All-imp _ _ s.members sound.seated λ m h.
            let (q, e, own) = h in
            (
              q,
              find_under Role.id m.role_id (r s.next_role) s.roles
                  (omega (
                    arith,
                    i s.next_role,
                    find-Below Role.id s.next_role m.role_id s.roles sound.roles_numbered e,
                  ))
                  e,
              own,
            );
      })
      refl

abbrev shop_or : Option Role → ℕ
shop_or none = 0
shop_or (some r) = r.shop_id

reseated :
    (s : Team) (k : ℕ) (r q : Role)
    → find Role.id k s.roles ≡ some r
    → q.id ≡ r.id
    → q.shop_id ≡ r.shop_id
    → (m : Member) → Seated s.roles m
    → Seated (save Role.id q s.roles) m
reseated s k r q e i same m (x, found, own) = elim (Bool-cases (q.id == m.role_id)) [
  | inl hit ↦
      let at : m.role_id ≡ k = ground (arith, i, find-key Role.id k s.roles e) in
      let one = subst (λ j. find Role.id j s.roles ≡ some x) at found in
      (
        q,
        find-save Role.id m.role_id q s.roles found ∙ rw hit refl,
        same ∙ ap shop_or (sym e ∙ one) ∙ own,
      )
  | inr miss ↦ (x, find-save Role.id m.role_id q s.roles found ∙ rw miss refl, own)
]

pub saved_role-Upholds :
    (s : Team) (k : ℕ) (r q : Role)
    → Sound s
    → find Role.id k s.roles ≡ some r
    → q.id ≡ r.id
    → q.shop_id ≡ r.shop_id
    → Upholds s (save_role q s)
saved_role-Upholds s k r q sound e i same =
    same-Upholds s (save_role q s) sound
      (record {
        roles_numbered = Below-save Role.id s.next_role q s.roles sound.roles_numbered;
        members_numbered = sound.members_numbered;
        seated = All-imp _ _ s.members sound.seated (reseated s k r q e i same);
      })
      refl

pub removed_role-Upholds :
    (s : Team) (k : ℕ) → Sound s → leb 1 (count_holders k s) ≡ false → Upholds s (without_role k s)
removed_role-Upholds s k sound free =
    same-Upholds s (without_role k s) sound
      (record {
        roles_numbered = without-Below Role.id s.next_role k s.roles sound.roles_numbered;
        members_numbered = sound.members_numbered;
        seated = still s.members free sound.seated;
      })
      refl
  where
    still :
        (ms : List Member)
        → leb 1 (length (keep (has_role k) ms)) ≡ false
        → All (Seated s.roles) ms
        → All (Seated (without Role.id k s.roles)) ms
    still [] f h = tt
    still (m ∷ ms) f h = elim (Bool-cases (has_role k m)) [
      | inl t ↦ absurd (ground arith)
      | inr other ↦
          let (q, e, own) = h.0 in
          (
            (q, find-without Role.id m.role_id k s.roles (ground arith) ∙ e, own),
            still ms (ground arith) h.1,
          )
    ]
