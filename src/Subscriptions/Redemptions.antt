-- ===== src/Subscriptions/Redemptions.antt =====
-- app/services/subscriptions.py: how often a promo code is redeemed, and by whom.
use skladbase.Prelude.{
  ℕ, suc, ◌≤◌, ◌≡◌, refl, sym, subst, inl, inr, Bool, true, false, Option, none, some, List, [],
  ◌∷◌, arith, Option-cases, Bool-cases, ◌==◌, String, is_some, All, length, keep,
}
use skladbase.Prelude.Tables.{select_one, Below, All-save, All-select_one, Below-save}
use skladbase.Models.{
  SubStatus, Subscription, PromoCode, PromoType, PromoRedemption, Billing, subscription_error,
  conflict, is_redeemable, Plan,
}
use skladbase.Prelude.Tables.{select_one-test}
use skladbase.Prelude.Selections.{select_one-saved}
use skladbase.Session.{Result, ok, err, ◌>>=◌}
use skladbase.Subscriptions.{transition}
use skladbase.Subscriptions.Promo.{
  redeem_promo, apply_code, grant_plan, promo_plan, use_code, count_use, is_redemption, has_code,
}

-- What a step on subscriptions leaves alone.
abbrev pub SamePromos : {A : Type 0} → Billing → Result A × Billing → Type 0
SamePromos b out = (out.1.promos ≡ b.promos) × (out.1.redemptions ≡ b.redemptions)

transition-SamePromos :
    (s : Subscription) (to : SubStatus) (b : Billing) → SamePromos b (transition s to b)
unfolding transition
transition-SamePromos s to b = ground arith

grant_plan-SamePromos :
    (now value : ℕ) (sub : Subscription) (found : Option Plan) (b : Billing)
    → SamePromos b (grant_plan now value sub found b)
grant_plan-SamePromos now value sub none b = (refl, refl)
grant_plan-SamePromos now value sub (some plan) b = transition-SamePromos _ _ _

apply_code-SamePromos :
    (now : ℕ) (sub : Subscription) (promo : PromoCode) (ty : PromoType) (b : Billing)
    → SamePromos b (apply_code now sub promo ty b)
apply_code-SamePromos now sub promo PromoType.free_period b = transition-SamePromos _ _ _
apply_code-SamePromos now sub promo PromoType.percent b = (refl, refl)
apply_code-SamePromos now sub promo PromoType.plan_grant b =
    grant_plan-SamePromos now promo.value sub (promo_plan promo b) b

-- How many redemptions of a code there are.
unfoldable pub uses : ℕ → List PromoRedemption → ℕ
uses k rs = length (keep (λ r. r.promo_code_id == k) rs)

-- No shop has redeemed a code twice.
abbrev pub Once : List PromoRedemption → Type 0
Once [] = Unit {0}
Once (r ∷ rs) = (select_one (is_redemption r.promo_code_id r.shop_id) rs ≡ none) × Once rs

-- The counter of a code counts its redemptions and is within its bound.
abbrev pub Metered : List PromoRedemption → PromoCode → Type 0
Metered rs p = (p.used_count ≡ uses p.id rs) × (p.used_count ≤ p.max_uses)

pub record PromoInv (b : Billing) : Type 0 where
  pub bound : ℕ
  pub numbered : Below PromoCode.id bound b.promos
  pub metered : All (Metered b.redemptions) b.promos
  pub once : Once b.redemptions

-- A step of the operation, at a code that may be redeemed.
count_use-Inv :
    (now shop_id : ℕ) (p : PromoCode) (q : PromoCode → Bool) (b c : Billing)
    → PromoInv b
    → (c.promos ≡ b.promos)
    → (c.redemptions ≡ b.redemptions)
    → select_one q b.promos ≡ some p
    → is_some (select_one (is_redemption p.id shop_id) b.redemptions) ≡ false
    → is_redeemable now p ≡ true
    → PromoInv (count_use now shop_id p c)
unfolding count_use uses is_redeemable
count_use-Inv now shop_id p q b c inv sp sr found new ready =
    let used : PromoCode = record p { used_count = suc p.used_count } in
    let row : PromoRedemption = record {
      promo_code_id = p.id;
      shop_id = shop_id;
      redeemed_at = now;
    } in
    let meter = All-select_one (Metered b.redemptions) q b.promos inv.metered found in
    rw (sp, sr)
      (record {
        bound = inv.bound;
        numbered = Below-save PromoCode.id inv.bound used b.promos inv.numbered;
        metered =
            All-save PromoCode.id (Metered b.redemptions) (Metered (row ∷ b.redemptions)) used
              b.promos inv.metered (λ o ne m. ground (arith, m)) (ground (arith, meter));
        once = (ground arith, inv.once);
      })

used-then :
    (now shop_id : ℕ) (p : PromoCode) (q : PromoCode → Bool) (b : Billing)
    (out : Result Subscription × Billing)
    → PromoInv b
    → SamePromos b out
    → select_one q b.promos ≡ some p
    → is_some (select_one (is_redemption p.id shop_id) b.redemptions) ≡ false
    → is_redeemable now p ≡ true
    → PromoInv (((λ _. out) >>= use_code now shop_id p) b).1
used-then now shop_id p q b (ok s, t) inv same found new ready =
    count_use-Inv now shop_id p q b t inv same.0 same.1 found new ready
used-then now shop_id p q b (err e, t) inv same found new ready = record {
  bound = inv.bound;
  numbered = subst (Below PromoCode.id inv.bound) (sym same.0) inv.numbered;
  metered = rw (same.0, same.1) inv.metered;
  once = subst Once (sym same.1) inv.once;
}

-- Whether it is accepted or refused, a redemption keeps the books: the counter of each code is the
-- number of its redemptions and never passes its bound, and no shop redeems a code twice.
pub redeem_promo-Inv :
    (code_of : String → String) (now shop_id : ℕ) (sub : Subscription) (code : String) (b : Billing)
    → PromoInv b
    → PromoInv (redeem_promo code_of now shop_id sub code b).1
unfolding redeem_promo
redeem_promo-Inv code_of now shop_id sub code b inv =
    elim (Option-cases (select_one (has_code (code_of code)) b.promos)) [
      | inl missing ↦ rw missing inv
      | inr (p, found) ↦
          elim (Bool-cases (is_some (select_one (is_redemption p.id shop_id) b.redemptions))) [
            | inl again ↦ rw (found, again) inv
            | inr new ↦ elim (Bool-cases (is_redeemable now p)) [
              | inl ready ↦
                  rw (found, new, ready)
                    (used-then now shop_id p (has_code (code_of code)) b
                      (apply_code now sub p p.type_of b) inv
                      (apply_code-SamePromos now sub p p.type_of b) found new ready)
              | inr gone ↦ rw (found, new, gone) inv
            ]
          ]
    ]

-- After a success the code is found, and so is the shop's redemption of it.
abbrev Taken : (PromoCode → Bool) → ℕ → Result Subscription × Billing → Type 0
Taken q shop_id (err e, t) = Unit {0}
Taken q shop_id (ok s, t) =
    (p : PromoCode) × (r : PromoRedemption) × (select_one q t.promos ≡ some p)
    × (select_one (is_redemption p.id shop_id) t.redemptions ≡ some r)

used-Taken :
    (now shop_id : ℕ) (p : PromoCode) (code : String) (b : Billing)
    (out : Result Subscription × Billing)
    → PromoInv b
    → SamePromos b out
    → select_one (has_code code) b.promos ≡ some p
    → Taken (has_code code) shop_id (((λ _. out) >>= use_code now shop_id p) b)
unfolding count_use select_one
used-Taken now shop_id p code b (err e, t) inv same found = tt
used-Taken now shop_id p code b (ok s, t) inv same found =
    let used : PromoCode = record p { used_count = suc p.used_count } in
    let row : PromoRedemption = record {
      promo_code_id = p.id;
      shop_id = shop_id;
      redeemed_at = now;
    } in
    (
      used,
      row,
      rw same.0 (
          select_one-saved PromoCode.id (has_code code) inv.bound used b.promos inv.numbered found
            refl (select_one-test (has_code code) b.promos found)),
      ground arith,
    )

redeem_promo-Taken :
    (code_of : String → String) (now shop_id : ℕ) (sub : Subscription) (code : String) (b : Billing)
    → PromoInv b
    → Taken (has_code (code_of code)) shop_id (redeem_promo code_of now shop_id sub code b)
unfolding redeem_promo
redeem_promo-Taken code_of now shop_id sub code b inv =
    elim (Option-cases (select_one (has_code (code_of code)) b.promos)) [
      | inl missing ↦ rw missing tt
      | inr (p, found) ↦
          elim (Bool-cases (is_some (select_one (is_redemption p.id shop_id) b.redemptions))) [
            | inl again ↦ rw (found, again) tt
            | inr new ↦ elim (Bool-cases (is_redeemable now p)) [
              | inl ready ↦
                  rw (found, new, ready)
                    (used-Taken now shop_id p (code_of code) b (apply_code now sub p p.type_of b)
                      inv (apply_code-SamePromos now sub p p.type_of b) found)
              | inr gone ↦ rw (found, new, gone) tt
            ]
          ]
    ]

-- A shop that has redeemed a code and tries it again, at any later time and with any state of its
-- subscription, is refused with 409 (also when that redemption used the code up) and nothing
-- changes.
pub redeem_promo-again :
    (code_of : String → String) (now now' shop_id : ℕ) (sub sub' s : Subscription) (code : String)
    (b t : Billing)
    → PromoInv b
    → redeem_promo code_of now shop_id sub code b ≡ (ok s, t)
    → redeem_promo code_of now' shop_id sub' code t ≡ (err (subscription_error conflict), t)
unfolding redeem_promo
redeem_promo-again code_of now now' shop_id sub sub' s code b t inv ran =
    let taken =
      subst (Taken (has_code (code_of code)) shop_id) ran
        (redeem_promo-Taken code_of now shop_id sub code b inv) in
    rw (taken.2, taken.3) refl
