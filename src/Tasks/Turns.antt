-- ===== src/Tasks/Turns.antt =====
-- app/tasks.py: one turn of `charge_due_card_subscriptions`.
use skladbase.Prelude.{
  sym, ap, is_some, if◌then◌else◌, length, ℕ, ◌+◌, ◌≡◌, refl, ◌∙◌, Bool, true, false, Option, none,
  some, List, ◌∷◌, arith, inl, inr, Bool-cases, Option-cases, subst, String,
}
use skladbase.Prelude.Updates.{some-of}
use skladbase.Models.{
  Error, server_error, Shop, SubStatus, Subscription, Plan, Billing, same_status,
}
use skladbase.Session.{Result, ok, err, Action, or_raise, >>=-ok, pure, ◌>>=◌}
use skladbase.Subscriptions.{Receipt, record_payment, mark_past_due, transition, allowed}
use skladbase.Prelude.Tables.{find}
use skladbase.Subscriptions.Payments.{records}
use skladbase.Tasks.Expiry.{Owned}
use skladbase.Tasks.Renewals.{
  is_chargeable, plan_of, charged, ChargeReport, owner_of, get_owner, answer_of, count_one, tell,
  charge_answered, charge_one, charge_each,
}

-- The plans are not written.
record_payment-plans :
    (now : ℕ) (s : Subscription) (r : Receipt) (b : Billing)
    → (record_payment now s r b).1.plans ≡ b.plans
unfolding record_payment transition
record_payment-plans now s r b = ground arith

mark_past_due-plans :
    (now : ℕ) (s : Subscription) (b : Billing) → (mark_past_due now s b).1.plans ≡ b.plans
unfolding mark_past_due transition
mark_past_due-plans now s b = ground arith

mark_past_due-Returns :
    (now : ℕ) (s : Subscription) (b : Billing)
    → is_chargeable now s ≡ true
    → (g : Subscription) × (t : Billing) × (mark_past_due now s b ≡ (ok g, t))
unfolding is_chargeable mark_past_due transition allowed
mark_past_due-Returns now s b e = elim (Bool-cases (same_status SubStatus.past_due s.status)) [
  | inl stays ↦ rw stays (_, _, refl)
  | inr moves ↦
      let a : allowed s.status SubStatus.past_due ≡ true = ground arith in
      rw (moves, a) (_, _, refl)
]

-- `session.get(Plan, …)`, on the table of plans
abbrev pub plan_in : List Plan → Subscription → Option Plan
plan_in plans s = elim s.plan_id [ none ↦ none | some k ↦ find Plan.id k plans ]

abbrev pub is_answered : Option Plan → (Plan → Option Bool) → Bool
is_answered none answer = true
is_answered (some plan) answer = is_some (answer plan)

abbrev pub is_yes : Option Bool → Bool
is_yes none = false
is_yes (some approved) = approved

abbrev pub is_approved : Option Plan → (Plan → Option Bool) → Bool
is_approved none answer = false
is_approved (some plan) answer = is_yes (answer plan)

abbrev pub one_if : Bool → ℕ
one_if c = if c then 1 else 0

pub length-if :
    (p : Bool) (x : Subscription) (xs : List Subscription) {m n : ℕ}
    → n ≡ m + one_if p
    → m ≡ length xs
    → n ≡ length (if p then x ∷ xs else xs)
length-if true x xs e f = omega (arith, e, f)
length-if false x xs e f = omega (arith, e, f)

-- A raise ends what comes after it.
pub >>=-err :
    {A B : Type 0} (m : Action Billing A) (f : A → Action Billing B) (b : Billing) {e : Error}
    {t : Billing}
    → m b ≡ (err e, t)
    → (m >>= f) b ≡ (err e, t)
>>=-err {A} m f b ran = ap (λ (out : Result A × Billing). ((λ _. out) >>= f) b) ran

module _ (shops : List Shop) (charge_recurring : Option String → String → ℕ → Option Bool)
    (order_ref : ℕ → ℕ → String) (now : ℕ) where
  -- The provider answers on a subscription, or it has no plan and is not asked about.
  abbrev pub answers : List Plan → Subscription → Bool
  answers plans s = is_answered (plan_in plans s) (answer_of shops charge_recurring order_ref now s)

  -- The provider takes the money.
  abbrev pub approves : List Plan → Subscription → Bool
  approves plans s =
      is_approved (plan_in plans s) (answer_of shops charge_recurring order_ref now s)

  -- A step that returned has counted what was taken, and has left the plans.
  abbrev pub Steps : Bool → Action Billing (ChargeReport → ChargeReport) → Billing → Type 0
  Steps taken m b =
      (add : ChargeReport → ChargeReport) × (t : Billing) × (m b ≡ (ok add, t))
      × (t.plans ≡ b.plans)
      × ((c : ChargeReport) → (add c).count ≡ c.count + one_if taken)

  charge_answered-Steps :
      (s : Subscription) (plan : Plan) (approved : Bool) (b : Billing)
      → is_chargeable now s ≡ true
      → Owned shops s
      → Steps approved (charge_answered shops charge_recurring order_ref now s plan approved) b
  charge_answered-Steps s plan true b e k =
      let r = charged s plan (order_ref s.shop_id now) in
      let (p, t, ran, found) = records now s r b in
      (
        count_one,
        t,
        >>=-ok (record_payment now s r) (λ _. pure count_one) b ran,
        sym (ap (λ out. out.1.plans) ran) ∙ record_payment-plans now s r b,
        (λ c. omega arith),
      )
  charge_answered-Steps s plan false b e k =
      let (g, t, ran) = mark_past_due-Returns now s b e in
      let (owner, found) = some-of (owner_of shops s.shop_id) k in
      (
        tell owner,
        t,
        >>=-ok (mark_past_due now s) (λ _. get_owner shops s.shop_id >>= λ o. pure (tell o)) b ran
            ∙ ap (λ o. (or_raise o server_error >>= λ o. pure (tell o)) t) found,
        sym (ap (λ out. out.1.plans) ran) ∙ mark_past_due-plans now s b,
        (λ c. omega arith),
      )

  charge_one-Steps :
      (s : Subscription) (found : Option Plan) (b : Billing)
      → is_chargeable now s ≡ true
      → Owned shops s
      → is_answered found (answer_of shops charge_recurring order_ref now s) ≡ true
      → Steps
          (is_approved found (answer_of shops charge_recurring order_ref now s))
          (charge_one shops charge_recurring order_ref now s found)
          b
  charge_one-Steps s none b e k h = ((λ c. c), b, refl, refl, (λ c. omega arith))
  charge_one-Steps s (some plan) b e k h =
      let (approved, told) = some-of (answer_of shops charge_recurring order_ref now s plan) h in
      rw told (charge_answered-Steps s plan approved b e k)

  pub charge_one-stops :
      (s : Subscription) (found : Option Plan) (b : Billing)
      → is_answered found (answer_of shops charge_recurring order_ref now s) ≡ false
      → charge_one shops charge_recurring order_ref now s found b ≡ (err server_error, b)
  charge_one-stops s none b h = absurd (ground arith)
  charge_one-stops s (some plan) b h =
      elim (Option-cases (answer_of shops charge_recurring order_ref now s plan)) [
        | inl silent ↦ rw silent refl
        | inr (approved, told) ↦ absurd (ground (arith, told))
      ]

  -- One turn of the loop, with the plan that it looks up.
  pub turn-Steps :
      (plans : List Plan) (s : Subscription) (b : Billing)
      → b.plans ≡ plans
      → is_chargeable now s ≡ true
      → Owned shops s
      → answers plans s ≡ true
      → Steps (approves plans s) (charge_one shops charge_recurring order_ref now s (plan_of s b)) b
  turn-Steps plans s b same h k a =
      subst (λ o. Steps (approves plans s) (charge_one shops charge_recurring order_ref now s o) b)
        (sym (ap (λ ps. plan_in ps s) same)) (charge_one-Steps s (plan_in plans s) b h k a)

  abbrev pub and_rest :
      List Subscription → (ChargeReport → ChargeReport) → Action Billing ChargeReport
  and_rest ss add = charge_each shops charge_recurring order_ref now ss >>= λ rest. pure (add rest)
