-- ===== src/Team/Admission.antt =====
-- app/services/bootstrap.py: the memberships and the invites that its queries find, and joining by one.
use skladbase.Prelude.{
  ℕ, ◌≡◌, refl, sym, ap, inl, inr, String, Bool, true, false, Option, none, some, List, [], ◌∷◌,
  ◌==◌, str_eq, arith, ltb, Bool-cases, ◌&&◌, not, Option-cases, Memᴰ, ◌⊎◌, ◌<◌, subst, is_some,
}
use mathlib.Core.List.Memᴰ
use mathlib.Core.List.Memᴰ.{head, tail}
use skladbase.Prelude.Tables.{select_one, select_one-test, find}
use skladbase.Models.{server_error, Shop, ShopStatus}
use skladbase.Session.{Result, ok, err, or_raise, ◌>>=◌, Tx}
use skladbase.Session.Whole.{opened}
use skladbase.Access.{MemberRole, Role}
use skladbase.Team.{Member, Invite, Team, is_active_invite}
use skladbase.Team.Join.{
  TelegramUser, if_usable, is_open, find_membership, is_seat, find_membership_in_shop,
  find_active_invite, Entry, as_joined, after_insert, join_with, join_via_invite, new_member,
  is_system_role, manager_role_name,
}

pub find_membership-own :
    (tg_id : ℕ) (ms : List Member) {m : Member}
    → find_membership tg_id ms ≡ some m
    → (m.tg_id ≡ tg_id) × Memᴰ m ms
unfolding find_membership
find_membership-own tg_id [] e = cc
find_membership-own tg_id (x ∷ ms) {m} e = elim (Bool-cases (x.tg_id == tg_id)) [
  | inl hit ↦
      let taken : x ≡ m → (m.tg_id ≡ tg_id) × Memᴰ m (x ∷ ms) =
        λ same. (ground (arith, ap Member.tg_id same), head (sym same)) in
      elim (Option-cases (find_membership tg_id ms)) [
        | inl none_left ↦ taken (ground arith)
        | inr (o, found) ↦ elim (Bool-cases (ltb o.id x.id)) [
          | inl before ↦
              let same : o ≡ m = ground arith in
              let own = find_membership-own tg_id ms found in
              (ground (arith, own.0, ap Member.tg_id same), Memᴰ.cast (sym same) (tail own.1))
          | inr after ↦ taken (ground arith)
        ]
      ]
  | inr miss ↦ let own = find_membership-own tg_id ms {m = m} (ground arith) in (own.0, tail own.1)
]

select_one-listed :
    {A : Type 0} (p : A → Bool) (xs : List A) {x : A} → select_one p xs ≡ some x → Memᴰ x xs
unfolding select_one
select_one-listed p [] e = cc
select_one-listed p (y ∷ ys) {x} e = elim (Bool-cases (p y)) [
  | inl hit ↦ let same : y ≡ x = ground arith in head (sym same)
  | inr miss ↦ tail (select_one-listed p ys (ground arith))
]

-- A call that raised has committed nothing of its own.
abbrev pub Untouched : (Team → Team) → Team → Tx Team → Type 0
Untouched rival s t = (t ≡ opened s) ⊎ (t ≡ opened (rival s))

-- What is returned is a membership of the user in a shop, and it is committed.
abbrev pub InShop : ℕ → ℕ → (Team → Team) → Team → Result Entry × Tx Team → Type 0
InShop tg_id shop_id rival s (err e, t) = Untouched rival s t
InShop tg_id shop_id rival s (ok entry, t) =
    (entry.0.tg_id ≡ tg_id) × (entry.0.shop_id ≡ shop_id) × Memᴰ entry.0 t.committed.members

pub seat_lem :
    (tg_id shop_id : ℕ) (ms : List Member) {m : Member}
    → select_one (is_seat tg_id shop_id) ms ≡ some m
    → (m.tg_id ≡ tg_id) × (m.shop_id ≡ shop_id) × Memᴰ m ms
seat_lem tg_id shop_id ms {m} e =
    let test = select_one-test (is_seat tg_id shop_id) ms e in
    (ground (arith, test), ground (arith, test), select_one-listed (is_seat tg_id shop_id) ms e)

as_joined-InShop :
    (tg_id shop_id : ℕ) (rival : Team → Team) (s : Team) (o : Option Member)
    → find_membership_in_shop tg_id shop_id (rival s) ≡ o
    → InShop tg_id shop_id rival s (as_joined o (opened (rival s)))
as_joined-InShop tg_id shop_id rival s none e = inr refl
as_joined-InShop tg_id shop_id rival s (some m) e = seat_lem tg_id shop_id (rival s).members e

after_insert-InShop :
    (user : TelegramUser) (i : Invite) (r : Role) (b : Bool) (rival : Team → Team) (s : Team)
    → InShop user.id i.shop_id rival s (
        after_insert user.id i.shop_id
          (new_member user i.shop_id MemberRole.manager r.id)
          b
          (opened (rival s)))
after_insert-InShop user i r true rival s =
    as_joined-InShop user.id i.shop_id rival s (find_membership_in_shop user.id i.shop_id (rival s))
      refl
after_insert-InShop user i r false rival s = (refl, refl, head refl)

pub join_via_invite-InShop :
    (user : TelegramUser) (i : Invite) (rival : Team → Team) (s : Team)
    → InShop user.id i.shop_id rival s (join_via_invite user i rival (opened s))
unfolding join_via_invite
join_via_invite-InShop user i rival s =
    with_role (select_one (is_system_role i.shop_id manager_role_name) s.roles)
  where
    with_role :
        (o : Option Role)
        → InShop user.id i.shop_id rival s
            ((or_raise o server_error >>= join_with user i rival) (opened s))
    with_role none = inl refl
    with_role (some r) =
        after_insert-InShop user i r (is_some (find_membership_in_shop user.id i.shop_id (rival s)))
          rival s

-- The invite with the token is not revoked, has not ended, and its shop is active.
abbrev pub Admits : ℕ → String → Team → Invite → Type 0
Admits now token s i =
    Memᴰ i s.invites
    × (str_eq i.token token ≡ true)
    × (i.revoked_at ≡ none)
    × (now < i.expires_at)
    × (shop : Shop) × (find Shop.id i.shop_id s.shops ≡ some shop)
    × (shop.status ≡ ShopStatus.active)

open_shop :
    (o : Option Shop)
    → is_open o ≡ true
    → (shop : Shop) × (o ≡ some shop) × (shop.status ≡ ShopStatus.active)
open_shop none e = absurd (ground arith)
open_shop (some shop) e = (shop, refl, is_active shop.status e)
  where
    is_active :
        (st : ShopStatus)
        → elim st [ ShopStatus.active ↦ true | ShopStatus.suspended ↦ false ] ≡ true
        → st ≡ ShopStatus.active
    is_active ShopStatus.active h = refl
    is_active ShopStatus.suspended h = absurd (ground arith)

not_revoked : (o : Option ℕ) → not (is_some o) ≡ true → o ≡ none
not_revoked none e = refl
not_revoked (some t) e = absurd (ground arith)

both : (a b : Bool) → (a && b) ≡ true → (a ≡ true) × (b ≡ true)
both true true e = (refl, refl)
both true false e = absurd (ground arith)
both false b e = absurd (ground arith)

ltb-true : (a b : ℕ) → ltb a b ≡ true → a < b
ltb-true a b e = ground arith

usable-Admits :
    (now : ℕ) (token : String) (s : Team) (o : Option Invite) (i : Invite)
    → select_one (λ x. str_eq x.token token) s.invites ≡ o
    → if_usable now s o ≡ some i
    → Admits now token s i
unfolding is_active_invite
usable-Admits now token s none i found e = absurd (ground arith)
usable-Admits now token s (some j) i found e =
    elim (Bool-cases (is_active_invite now j && is_open (find Shop.id j.shop_id s.shops))) [
      | inl t ↦
          let same : j ≡ i = ground arith in
          let shop = find Shop.id j.shop_id s.shops in
          let usable = both (is_active_invite now j) (is_open shop) t in
          let active = both (not (is_some j.revoked_at)) (ltb now j.expires_at) usable.0 in
          let opens = open_shop shop usable.1 in
          subst (Admits now token s) same (
            select_one-listed (λ x. str_eq x.token token) s.invites found,
            select_one-test (λ x. str_eq x.token token) s.invites found,
            not_revoked j.revoked_at active.0,
            ltb-true now j.expires_at active.1,
            opens.0,
            opens.1,
            opens.2,
          )
      | inr f ↦ absurd (ground arith)
    ]

pub find_active-Admits :
    (now : ℕ) (token : String) (s : Team) (i : Invite)
    → find_active_invite now token s ≡ some i
    → Admits now token s i
unfolding find_active_invite
find_active-Admits now token s i e =
    usable-Admits now token s (select_one (λ x. str_eq x.token token) s.invites) i refl e
