-- ===== src/Access/Rules.antt =====
-- app/deps.py: whom the checks admit.
use skladbase.Prelude.{
  ℕ, ◌≡◌, ◌↔◌, ◌⊎◌, refl, ap, ltb, inl, inr, Bool, true, Option, none, some, List, [], ◌∷◌, arith,
  Option-cases, Bool-cases, ◌==◌, is_some,
}
use skladbase.Prelude.Tables.{select_one, select_one-test}
use skladbase.Models.{Subscription, is_writable, forbidden, payment_required}
use skladbase.Access.{
  MemberRole, Permission, Membership, Checked, admitted, refused, is_owner, effective_permission,
  check_permission, check_writable, require_permission_writable, first_membership, is_member_of,
  member, or_forbidden, or_bootstrap, resolve_membership,
}

-- Whom a permission is given to: the owner; who has an own entry that says yes; who has no own entry
-- and a role that grants it.
pub data Permitted (m : Membership) (perm : Permission) : Type 0 where
  as_owner : m.role ≡ MemberRole.owner → Permitted m perm
  by_override : m.overrides perm ≡ some true → Permitted m perm
  by_role : m.overrides perm ≡ none → m.role_ref.grants perm ≡ true → Permitted m perm

always_writable : (now : ℕ) (s : Subscription) → is_writable now s ≡ true
unfolding is_writable
always_writable now s = ground arith

-- A shop that has a subscription, of whatever status.
abbrev pub Subscribed : ℕ → List Subscription → Type 0
Subscribed shop_id subs = is_some (select_one (λ s. s.shop_id == shop_id) subs) ≡ true

Permitted-check :
    (m : Membership) (perm : Permission) → Permitted m perm → check_permission m perm ≡ admitted tt
unfolding check_permission effective_permission
Permitted-check m perm (as_owner e) = rw e refl
Permitted-check m perm (by_override e) = rw e (ground arith)
Permitted-check m perm (by_role e g) = rw (e, g) (ground arith)

-- Who is not permitted is refused.
abbrev Judged : Membership → Permission → Checked (Unit {0}) → Type 0
Judged m perm out = (Permitted m perm × (out ≡ admitted tt)) ⊎ (out ≡ refused forbidden)

check_permission-Judged :
    (m : Membership) (perm : Permission) → Judged m perm (check_permission m perm)
unfolding check_permission effective_permission
check_permission-Judged m perm = elim (Bool-cases (is_owner m.role)) [
  | inl own ↦ inl (as_owner (ground arith), ground arith)
  | inr denied ↦ elim (Option-cases (m.overrides perm)) [
    | inl null ↦ elim (Bool-cases (m.role_ref.grants perm)) [
      | inl granted ↦ inl (by_role null granted, rw (denied, null, granted) refl)
      | inr refuses ↦ inr (rw (denied, null, refuses) refl)
    ]
    | inr (b, own) ↦ elim (Bool-cases b) [
      | inl granted ↦ inl (by_override (rw own (ground arith)), rw (denied, own, granted) refl)
      | inr refuses ↦ inr (rw (denied, own, refuses) refl)
    ]
  ]
]

check_writable-Subscribed :
    (now shop_id : ℕ) (subs : List Subscription)
    → (Subscribed shop_id subs × (check_writable now shop_id subs ≡ admitted tt))
      ⊎ ((select_one (λ s. s.shop_id == shop_id) subs ≡ none)
          × (check_writable now shop_id subs ≡ refused payment_required))
unfolding check_writable
check_writable-Subscribed now shop_id subs =
    elim (Option-cases (select_one (λ s. s.shop_id == shop_id) subs)) [
      | inl missing ↦ inr (missing, rw missing refl)
      | inr (s, e) ↦ inl (rw e refl, rw (e, always_writable now s) refl)
    ]

-- A request for a change is admitted exactly if the member is permitted (as the owner, by an own
-- entry, or by the role where there is no own entry) and the shop has a subscription; the status
-- of the subscription and its end do not matter.
pub require_permission_writable-Permitted :
    (perm : Permission) (now : ℕ) (subs : List Subscription) (m : Membership)
    → (require_permission_writable perm now subs m ≡ admitted m)
      ↔ (Permitted m perm × Subscribed m.shop_id subs)
unfolding require_permission_writable
require_permission_writable-Permitted perm now subs m = (
  (λ e. elim (check_permission-Judged m perm) [
    | inl (p, a) ↦ elim (check_writable-Subscribed now m.shop_id subs) [
      | inl (s, w) ↦ (p, s)
      | inr (missing, w) ↦ absurd (ground arith)
    ]
    | inr denied ↦ absurd (ground arith)
  ]),
  (λ (p, s). elim (check_writable-Subscribed now m.shop_id subs) [
    | inl (t, w) ↦ rw (Permitted-check m perm p, w) refl
    | inr (missing, w) ↦ absurd (ground arith)
  ]),
)

-- The user's, and the named shop's.
abbrev pub Own : ℕ → Option ℕ → Membership → Type 0
Own tg_id none m = m.tg_id ≡ tg_id
Own tg_id (some shop_id) m = (m.tg_id ≡ tg_id) × (m.shop_id ≡ shop_id)

first_membership-own :
    (tg_id : ℕ) (ms : List Membership) {m : Membership}
    → first_membership tg_id ms ≡ some m
    → m.tg_id ≡ tg_id
unfolding first_membership
first_membership-own tg_id [] e = cc
first_membership-own tg_id (x ∷ ms) {m} e = elim (Bool-cases (x.tg_id == tg_id)) [
  | inl hit ↦ elim (Option-cases (first_membership tg_id ms)) [
    | inl none_left ↦ let same : x ≡ m = ground arith in ground (arith, ap Membership.tg_id same)
    | inr (o, found) ↦ elim (Bool-cases (ltb o.id x.id)) [
      | inl before ↦
          let same : o ≡ m = ground arith in
          ground (arith, first_membership-own tg_id ms found, ap Membership.tg_id same)
      | inr after ↦ let same : x ≡ m = ground arith in ground (arith, ap Membership.tg_id same)
    ]
  ]
  | inr miss ↦ first_membership-own tg_id ms {m = m} (ground arith)
]

or_bootstrap-member :
    (may_bootstrap has_invite : Bool) (found : Option Membership) (m : Membership)
    → or_bootstrap may_bootstrap has_invite found ≡ admitted (member m)
    → found ≡ some m
or_bootstrap-member b i none m e = ground arith
or_bootstrap-member b i (some o) m e = ground arith

or_forbidden-member :
    (found : Option Membership) (m : Membership)
    → or_forbidden found ≡ admitted (member m)
    → found ≡ some m
or_forbidden-member none m e = ground arith
or_forbidden-member (some o) m e = ground arith

-- A membership that a request is resolved to is of the user whose signature was valid, and of the
-- shop that the request names if it names one; a request without a valid signature is refused.
pub resolve_membership-Own :
    (has_invite may_bootstrap : Bool) (x_shop_id : Option ℕ) (ms : List Membership)
    (user : Option ℕ) (m : Membership)
    → resolve_membership user has_invite may_bootstrap x_shop_id ms ≡ admitted (member m)
    → (tg_id : ℕ) × (user ≡ some tg_id) × Own tg_id x_shop_id m
unfolding resolve_membership
resolve_membership-Own i b x ms none m e = absurd (ground arith)
resolve_membership-Own i b none ms (some tg_id) m e =
    (tg_id, refl, first_membership-own tg_id ms (or_bootstrap-member b i _ m e))
resolve_membership-Own i b (some shop_id) ms (some tg_id) m e =
    let test = select_one-test (is_member_of tg_id shop_id) ms (or_forbidden-member _ m e) in
    (tg_id, refl, (ground (arith, test), ground (arith, test)))
