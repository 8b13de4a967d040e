-- ===== src/Subscriptions/Machine.antt =====
-- app/services/subscriptions.py: the operations as a state machine on one subscription.
use skladbase.Prelude.{
  ℕ, ◌+◌, ◌≡◌, ◌≢◌, refl, sym, ◌∙◌, subst, inl, inr, false, Option, none, some, List, ◌∷◌, [], ◌==◌,
  ap, arith, Option-cases, Bool-cases, String, is_some,
}
use skladbase.Prelude.Tables.{select_one, save, find, find-save}
use skladbase.Models.{
  SubStatus, Subscription, Billing, same_status, PromoType, PromoCode, Plan, is_redeemable, days,
}
use skladbase.Session.{Result, ok, err, Action, ◌>>=◌, ◌>>◌, pure}
use skladbase.Subscriptions.{
  Receipt, record_payment, mark_past_due, cancel, expire, transition, allowed, extended, is_payment,
  set_sub, enter_payment, start_trial, past_due_grace_days,
}
use skladbase.Subscriptions.Steps.{
  Op, Step, starts_trial, pays, fails_to_pay, cancels, expires, redeems, unchanged, renews, grants,
  fails, cancels_trial, cancels_active, cancels_late, lapses, IsStep, fails-IsStep, cancels-IsStep,
}
use skladbase.Subscriptions.Promo.{
  redeem_promo, apply_code, grant, grant_plan, promo_plan, granted, use_code, count_use,
  is_redemption, has_code,
}

-- The subscription stands in the table, a step of the operation away from a status.
abbrev pub Stands : Op → ℕ → SubStatus → Billing → Type 0
Stands op k st t =
    (s : Subscription) × (s.id ≡ k)
    × (find Subscription.id k t.subscriptions ≡ some s)
    × Step op st s.status

-- The same, with what an operation returns.
abbrev Moved : Op → ℕ → SubStatus → Result Subscription × Billing → Type 0
Moved op k st (ok s, t) =
    (s.id ≡ k) × (find Subscription.id k t.subscriptions ≡ some s) × Step op st s.status
Moved op k st (err e, t) = Stands op k st t

pub find-saved :
    (k : ℕ) (x : Subscription) (xs : List Subscription) {y : Subscription}
    → x.id ≡ k
    → find Subscription.id k xs ≡ some y
    → find Subscription.id k (save Subscription.id x xs) ≡ some x
find-saved k x xs same e = find-save Subscription.id k x xs e ∙ ground (arith, same)

transition-Moved :
    (op : Op) (k : ℕ) (s : Subscription) (to : SubStatus) (b : Billing)
    → IsStep op to
    → s.id ≡ k
    → find Subscription.id k b.subscriptions ≡ some s
    → Moved op k s.status (transition s to b)
unfolding transition
transition-Moved op k s to b step same e = elim (Bool-cases (same_status to s.status)) [
  | inl stays ↦ rw stays (same, e, unchanged)
  | inr moves ↦ elim (Bool-cases (allowed s.status to)) [
    | inl a ↦
        rw (moves, a)
          (same, find-saved k (record s { status = to }) b.subscriptions same e, step s.status a)
    | inr n ↦ rw (moves, n) (s, same, e, unchanged)
  ]
]

-- A write that keeps the key and the status, after a step.
write-Stands :
    (op : Op) (k : ℕ) (st : SubStatus) (f : Subscription → Subscription)
    (out : Result Subscription × Billing)
    → ((s : Subscription) → (f s).id ≡ s.id)
    → ((s : Subscription) → (f s).status ≡ s.status)
    → Moved op k st out
    → Stands op k st (((λ _. out) >>= λ s. set_sub (f s) >> pure (f s)) out.1).1
write-Stands op k st f (ok s, t) key status h = (
  f s,
  key s ∙ h.0,
  find-saved k (f s) t.subscriptions (key s ∙ h.0) h.1,
  subst (Step op st) (sym (status s)) h.2,
)
write-Stands op k st f (err e, t) key status h = h

-- The tables after an operation at `now`.
unfoldable pub operate : ℕ → Subscription → Op → Billing → Billing
unfolding start_trial record_payment mark_past_due cancel expire redeem_promo
operate now sub (starts_trial plan) b = (start_trial now sub.shop_id plan b).1
operate now sub (pays r) b = (record_payment now sub r b).1
operate now sub fails_to_pay b = (mark_past_due now sub b).1
operate now sub cancels b = (cancel now sub b).1
operate now sub expires b = (expire sub b).1
operate now sub (redeems code_of code) b = (redeem_promo code_of now sub.shop_id sub code b).1

after-Stands :
    {A : Type 0} (op : Op) (k : ℕ) (st : SubStatus) (out : Result Subscription × Billing)
    (f : Subscription → Action Billing A)
    → Moved op k st out
    → ((s : Subscription) (t : Billing) → (f s t).1.subscriptions ≡ t.subscriptions)
    → Stands op k st (((λ _. out) >>= f) out.1).1
after-Stands op k st (ok s, t) f h keeps =
    (s, h.0, subst (λ xs. find Subscription.id k xs ≡ some s) (sym (keeps s t)) h.1, h.2)
after-Stands op k st (err e, t) f h keeps = h

-- An operation that ends in a write after a transition.
pays-Stands :
    (now : ℕ) (sub : Subscription) (r : Receipt) (b : Billing)
    → find Subscription.id sub.id b.subscriptions ≡ some sub
    → Stands (pays r) sub.id sub.status (record_payment now sub r b).1
unfolding record_payment extended
pays-Stands now sub r b e =
    elim (Option-cases (select_one (is_payment sub.shop_id r.transaction_id) b.payments)) [
      | inl new ↦
          let paid = extended now sub r in
          let stored = find-saved sub.id paid b.subscriptions refl e in
          rw new (
            after-Stands (pays r) sub.id sub.status _ (λ _. enter_payment now sub r)
              (transition-Moved (pays r) sub.id paid SubStatus.active _ (λ st a. renews) refl
                stored)
              (λ s t. refl))
      | inr (p, old) ↦ rw old (sub, refl, e, unchanged)
    ]

grant-Moved :
    (code_of : String → String) (code : String) (now value : ℕ) (plan : Option ℕ)
    (sub : Subscription) (b : Billing)
    → find Subscription.id sub.id b.subscriptions ≡ some sub
    → Moved (redeems code_of code) sub.id sub.status (grant now value plan sub b)
unfolding granted
grant-Moved code_of code now value plan sub b e =
    let given = granted now value plan sub in
    transition-Moved (redeems code_of code) sub.id given SubStatus.active _ (λ st a. grants) refl
      (find-saved sub.id given b.subscriptions refl e)

grant_plan-Moved :
    (code_of : String → String) (code : String) (now value : ℕ) (found : Option Plan)
    (sub : Subscription) (b : Billing)
    → find Subscription.id sub.id b.subscriptions ≡ some sub
    → Moved (redeems code_of code) sub.id sub.status (grant_plan now value sub found b)
grant_plan-Moved code_of code now value none sub b e = (sub, refl, e, unchanged)
grant_plan-Moved code_of code now value (some plan) sub b e =
    grant-Moved code_of code now value (some plan.id) sub b e

apply_code-Moved :
    (code_of : String → String) (code : String) (now : ℕ) (sub : Subscription) (promo : PromoCode)
    (ty : PromoType) (b : Billing)
    → find Subscription.id sub.id b.subscriptions ≡ some sub
    → Moved (redeems code_of code) sub.id sub.status (apply_code now sub promo ty b)
apply_code-Moved code_of code now sub promo PromoType.free_period b e =
    grant-Moved code_of code now promo.value sub.plan_id sub b e
apply_code-Moved code_of code now sub promo PromoType.percent b e = (refl, e, unchanged)
apply_code-Moved code_of code now sub promo PromoType.plan_grant b e =
    grant_plan-Moved code_of code now promo.value (promo_plan promo b) sub b e

redeems-Stands :
    (code_of : String → String) (now shop_id : ℕ) (sub : Subscription) (code : String) (b : Billing)
    → find Subscription.id sub.id b.subscriptions ≡ some sub
    → Stands
        (redeems code_of code)
        sub.id
        sub.status
        (redeem_promo code_of now shop_id sub code b).1
unfolding redeem_promo count_use
redeems-Stands code_of now shop_id sub code b e =
    let stays : Stands (redeems code_of code) sub.id sub.status b = (sub, refl, e, unchanged) in
    elim (Option-cases (select_one (has_code (code_of code)) b.promos)) [
      | inl missing ↦ rw missing stays
      | inr (p, found) ↦
          elim (Bool-cases (is_some (select_one (is_redemption p.id shop_id) b.redemptions))) [
            | inl again ↦ rw (found, again) stays
            | inr new ↦ elim (Bool-cases (is_redeemable now p)) [
              | inl ready ↦
                  rw (found, new, ready)
                    (after-Stands (redeems code_of code) sub.id sub.status
                      (apply_code now sub p p.type_of b) (use_code now shop_id p)
                      (apply_code-Moved code_of code now sub p p.type_of b e) (λ s t. refl))
              | inr gone ↦ rw (found, new, gone) stays
            ]
          ]
    ]

has_one :
    (k : ℕ) (sub : Subscription) (xs : List Subscription)
    → find Subscription.id k xs ≡ some sub
    → (s : Subscription) × (select_one (λ x. x.shop_id == sub.shop_id) xs ≡ some s)
unfolding find select_one
has_one k sub [] e = cc
has_one k sub (x ∷ xs) e = elim (Bool-cases (x.shop_id == sub.shop_id)) [
  | inl hit ↦ (x, rw hit refl)
  | inr miss ↦
      let other : (x.id == k) ≡ false = elim (Bool-cases (x.id == k)) [
        | inl t ↦
            let same : x ≡ sub = ground arith in
            absurd (ground (arith, ap Subscription.shop_id same))
        | inr f ↦ f
      ] in
      let (s, found) = has_one k sub xs (ground arith) in (s, rw miss found)
]

-- A shop that has a subscription is given no other.
trial-Stands :
    (now : ℕ) (plan : Option Plan) (sub : Subscription) (b : Billing)
    → find Subscription.id sub.id b.subscriptions ≡ some sub
    → Stands (starts_trial plan) sub.id sub.status (start_trial now sub.shop_id plan b).1
unfolding start_trial
trial-Stands now plan sub b e =
    let (s, had) = has_one sub.id sub b.subscriptions e in rw had (sub, refl, e, unchanged)

-- Each operation of the service, accepted or refused, leaves the status of a stored subscription
-- as it is or changes it the way that operation is for.
pub operate-Stands :
    (now : ℕ) (sub : Subscription) (op : Op) (b : Billing)
    → find Subscription.id sub.id b.subscriptions ≡ some sub
    → Stands op sub.id sub.status (operate now sub op b)
unfolding operate mark_past_due cancel expire
operate-Stands now sub (starts_trial plan) b e = trial-Stands now plan sub b e
operate-Stands now sub (pays r) b e = pays-Stands now sub r b e
operate-Stands now sub fails_to_pay b e =
    write-Stands fails_to_pay sub.id sub.status
      (λ s. record s { current_period_end = some (now + days past_due_grace_days) }) _ (λ s. refl)
      (λ s. refl)
      (transition-Moved fails_to_pay sub.id sub SubStatus.past_due b fails-IsStep refl e)
operate-Stands now sub cancels b e =
    write-Stands cancels sub.id sub.status
      (λ s. record s { auto_renew = false; canceled_at = some now }) _ (λ s. refl) (λ s. refl)
      (transition-Moved cancels sub.id sub SubStatus.canceled b cancels-IsStep refl e)
operate-Stands now sub expires b e =
    write-Stands expires sub.id sub.status (λ s. record s { auto_renew = false }) _ (λ s. refl)
      (λ s. refl) (transition-Moved expires sub.id sub SubStatus.expired b (λ st a. lapses) refl e)
operate-Stands now sub (redeems code_of code) b e =
    redeems-Stands code_of now sub.shop_id sub code b e

-- A run of operations on the subscription with key `k`, each on the row as it then stands.
unfoldable pub run : ℕ → List (ℕ × Op) → Billing → Billing
unfolding operate
run k [] b = b
run k (q ∷ qs) b = elim (find Subscription.id k b.subscriptions) [
  | none ↦ b
  | some sub ↦ run k qs (operate q.0 sub q.1 b)
]

never_trial : (op : Op) (s t : SubStatus) → Step op s t → s ≢ SubStatus.trial → t ≢ SubStatus.trial
never_trial op s t unchanged ne = ne
never_trial op s t renews ne = λ z. cc
never_trial op s t grants ne = λ z. cc
never_trial op s t fails ne = λ z. cc
never_trial op s t cancels_trial ne = λ z. cc
never_trial op s t cancels_active ne = λ z. cc
never_trial op s t cancels_late ne = λ z. cc
never_trial op s t lapses ne = λ z. cc

-- Once a subscription has left its trial, no sequence of operations, new trials of the shop
-- included, takes it back there.
pub run-trial :
    (k : ℕ) (qs : List (ℕ × Op)) (b : Billing) (s : Subscription)
    → s.id ≡ k
    → find Subscription.id k b.subscriptions ≡ some s
    → s.status ≢ SubStatus.trial
    → (t : Subscription) × (find Subscription.id k (run k qs b).subscriptions ≡ some t)
      × (t.status ≢ SubStatus.trial)
unfolding run
run-trial k [] b s same e ne = (s, e, ne)
run-trial k (q ∷ qs) b s same e ne =
    let (t, key, e', step) =
      operate-Stands q.0 s q.1 b
        (subst (λ j. find Subscription.id j b.subscriptions ≡ some s) (sym same) e) in
    let e'' =
      subst (λ j. find Subscription.id j (operate q.0 s q.1 b).subscriptions ≡ some t) same e' in
    rw (run, e)
      (run-trial k qs (operate q.0 s q.1 b) t (key ∙ same) e''
        (never_trial q.1 s.status t.status step ne))
