-- ===== src/Team/Guards.antt =====
-- app/api/team.py: what the endpoints' guards let through.
use skladbase.Prelude.{
  ℕ, ◌≡◌, refl, sym, ap, ◌∙◌, inl, inr, String, Bool, true, false, Option, none, some, ◌==◌, arith,
  Bool-cases, str_eq,
}
use skladbase.Prelude.Tables.{find}
use skladbase.Session.{Result, ok, err, Tx}
use skladbase.Session.Whole.{Still, Whole}
use skladbase.Access.{Role}
use skladbase.Team.{
  Member, Invite, Team, of_shop, in_shop, get_invite, get_role, get_member, refuse_rename,
}
use skladbase.Team.Seats.{Upholds}

-- A raise has changed nothing; a return has committed a team that upholds the one before.
abbrev pub Dutiful : {A : Type 0} → Team → Result A × Tx Team → Type 0
Dutiful s out = Whole (Upholds s) s out

pub of_shop-Still : {A : Type 0} (f : A → ℕ) (shop : ℕ) (o : Option A) → Still (of_shop f shop o)
of_shop-Still f shop none t = refl
of_shop-Still f shop (some a) t = let_in (f a == shop)
  where
    let_in : (b : Bool) → (in_shop b a t).1 ≡ t
    let_in true = refl
    let_in false = refl

abbrev found_in : {A : Type 0} → Result A × Tx Team → Option A
found_in (ok a, t) = some a
found_in (err e, t) = none

-- What `session.get` and the test of the shop let through.
pub of_shop-found :
    {A : Type 0} (f : A → ℕ) (shop : ℕ) (o : Option A) (t : Tx Team) {a : A}
    → of_shop f shop o t ≡ (ok a, t)
    → (o ≡ some a) × (f a ≡ shop)
of_shop-found f shop none t e = absurd (ground (arith, ap found_in e))
of_shop-found {A} f shop (some b) t {a} e = own (f b == shop) refl e
  where
    own :
        (c : Bool)
        → (f b == shop) ≡ c
        → in_shop c b t ≡ (ok a, t)
        → (some b ≡ some a) × (f a ≡ shop)
    own true h k = let same = ap found_in k in (same, ap (shop_of b) (sym same) ∙ ground (arith, h))
      where
        shop_of : A → Option A → ℕ
        shop_of x none = f x
        shop_of x (some y) = f y
    own false h k = absurd (ground (arith, ap found_in k))

pub get_invite-Still : (k shop : ℕ) → Still (get_invite k shop)
get_invite-Still k shop t = of_shop-Still Invite.shop_id shop (find Invite.id k t.work.invites) t

pub get_role-Still : (k shop : ℕ) → Still (get_role k shop)
get_role-Still k shop t = of_shop-Still Role.shop_id shop (find Role.id k t.work.roles) t

pub get_member-Still : (k shop : ℕ) → Still (get_member k shop)
get_member-Still k shop t = of_shop-Still Member.shop_id shop (find Member.id k t.work.members) t

pub refuse_rename-Still : (shop : ℕ) (r : Role) (o : Option String) → Still (refuse_rename shop r o)
refuse_rename-Still shop r none t = refl
refuse_rename-Still shop r (some name) t = elim (Bool-cases (str_eq name r.name)) [
  | inl e ↦ rw e refl
  | inr e ↦ rw e refl
]
