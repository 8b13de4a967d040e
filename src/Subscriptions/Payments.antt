-- ===== src/Subscriptions/Payments.antt =====
-- app/services/subscriptions.py: what `record_payment` makes of a subscription.
use text.Mathlib.TextPositions.{eq_refl}
use skladbase.Prelude.{
  ℕ, suc, ◌+◌, ◌≤◌, ◌≡◌, refl, sym, ◌∙◌, subst, ap, inl, inr, ◌⊎◌, true, false, Option, none, some,
  List, ◌∷◌, arith, Option-cases, Bool-cases, String, ltb,
}
use skladbase.Prelude.Tables.{select_one, save, find, find-save}
use skladbase.Models.{SubStatus, Subscription, Payment, Billing, same_status}
use skladbase.Session.{Result, ok, err, >>=-ok}
use skladbase.Subscriptions.{
  enter_payment, new_payment, Receipt, is_payment, record_payment, transition, extended,
  extension_base, period_delta, allowed,
}

-- The end of the period is the payment's period after the later of now and the old end.
abbrev pub Extends : ℕ → Option ℕ → ℕ → ℕ → Type 0
Extends now none delta end = end ≡ now + delta
Extends now (some old) delta end =
    (now + delta ≤ end) × (old + delta ≤ end) × ((end ≡ now + delta) ⊎ (end ≡ old + delta))

extension_base-Extends :
    (now : ℕ) (old : Option ℕ) (delta : ℕ) → Extends now old delta (extension_base now old + delta)
unfolding extension_base
extension_base-Extends now none delta = refl
extension_base-Extends now (some old) delta = elim (Bool-cases (ltb now old)) [
  | inl t ↦ rw t (ground arith, ground arith, inr refl)
  | inr f ↦ rw f (ground arith, ground arith, inl refl)
]

to_active :
    (s : SubStatus)
    → (s ≡ SubStatus.active)
      ⊎ ((same_status SubStatus.active s ≡ false) × (allowed s SubStatus.active ≡ true))
unfolding allowed
to_active SubStatus.active = inl refl
to_active SubStatus.trial = inr (refl, refl)
to_active SubStatus.past_due = inr (refl, refl)
to_active SubStatus.canceled = inr (refl, refl)
to_active SubStatus.expired = inr (refl, refl)

-- A stored subscription that is active and runs for `delta` more.
abbrev pub Renewed : ℕ → Subscription → ℕ → Billing → Type 0
Renewed now sub delta t =
    (s : Subscription) × (end : ℕ) × (find Subscription.id sub.id t.subscriptions ≡ some s)
    × (s.status ≡ SubStatus.active)
    × (s.current_period_end ≡ some end)
    × Extends now sub.current_period_end delta end

find-save_same :
    (k : ℕ) (x : Subscription) (xs : List Subscription) {y : Subscription}
    → x.id ≡ k
    → find Subscription.id k xs ≡ some y
    → find Subscription.id k (save Subscription.id x xs) ≡ some x
find-save_same k x xs same e = find-save Subscription.id k x xs e ∙ ground (arith, same)

-- A subscription with a new period, made active.
pub to_active-Renewed :
    (now delta : ℕ) (sub new : Subscription) (b : Billing)
    → find Subscription.id sub.id b.subscriptions ≡ some sub
    → new.id ≡ sub.id
    → new.current_period_end ≡ some (extension_base now sub.current_period_end + delta)
    → (s : Subscription) × (t : Billing) × (transition new SubStatus.active
          (record b { subscriptions = save Subscription.id new b.subscriptions })
        ≡ (ok s, t))
      × Renewed now sub delta t
      × (t.payments ≡ b.payments)
unfolding transition
to_active-Renewed now delta sub new b stored same end =
    let rows : List Subscription = save Subscription.id new b.subscriptions in
    let once = find-save_same sub.id new b.subscriptions same stored in
    let up : Subscription = record new { status = SubStatus.active } in
    let twice = find-save_same sub.id up rows same once in
    let extends = extension_base-Extends now sub.current_period_end delta in
    let end' = extension_base now sub.current_period_end + delta in
    elim (to_active new.status) [
      | inl e ↦
          rw (ap (same_status SubStatus.active) e)
            (new, record b { subscriptions = rows }, refl, (new, end', once, e, end, extends), refl)
      | inr (e, a) ↦
          rw (e, a)
            (
              up,
              record b { subscriptions = save Subscription.id up rows },
              refl,
              (up, end', twice, refl, end, extends),
              refl,
            )
    ]

-- A payment with a new transaction id is recorded whatever the status of the subscription was: it
-- returns a payment that is now the newest one, and the stored subscription is active until its
-- period after the later of now and its old end.
pub record_payment-renews :
    (now : ℕ) (sub : Subscription) (r : Receipt) (b : Billing)
    → find Subscription.id sub.id b.subscriptions ≡ some sub
    → select_one (is_payment sub.shop_id r.transaction_id) b.payments ≡ none
    → (p : Payment) × (t : Billing) × (record_payment now sub r b ≡ (ok p, t))
      × (t.payments ≡ p ∷ b.payments)
      × Renewed now sub (period_delta r.period) t
unfolding record_payment extended
record_payment-renews now sub r b stored new =
    let delta = period_delta r.period in
    let (s, t, ran, renewed, same) =
      to_active-Renewed now delta sub (extended now sub r) b stored refl refl in
    let p : Payment = new_payment now sub r t.next_payment in
    let t' : Billing = record t { payments = p ∷ t.payments; next_payment = suc t.next_payment } in
    rw new (
      p,
      t',
      >>=-ok (transition (extended now sub r) SubStatus.active) (λ _. enter_payment now sub r) _
          ran,
      ap (λ ps. p ∷ ps) same,
      renewed,
    )

activates :
    (new : Subscription) (b : Billing)
    → (s : Subscription) × (t : Billing) × (transition new SubStatus.active b ≡ (ok s, t))
      × (t.payments ≡ b.payments)
unfolding transition
activates new b =
    let up : Subscription = record new { status = SubStatus.active } in
    elim (to_active new.status) [
      | inl e ↦ rw (ap (same_status SubStatus.active) e) (new, b, refl, refl)
      | inr (e, a) ↦
          rw (e, a)
            (up, record b { subscriptions = save Subscription.id up b.subscriptions }, refl, refl)
    ]

-- After a payment is recorded a query for its transaction finds it.
pub records :
    (now : ℕ) (sub : Subscription) (r : Receipt) (b : Billing)
    → (p : Payment) × (t : Billing) × (record_payment now sub r b ≡ (ok p, t))
      × (select_one (is_payment sub.shop_id r.transaction_id) t.payments ≡ some p)
unfolding record_payment extended select_one
records now sub r b =
    elim (Option-cases (select_one (is_payment sub.shop_id r.transaction_id) b.payments)) [
      | inl new ↦
          let paid = extended now sub r in
          let rows = save Subscription.id paid b.subscriptions in
          let (s, t, ran, same) = activates paid (record b { subscriptions = rows }) in
          let p : Payment = new_payment now sub r t.next_payment in
          let t' : Billing = record t {
            payments = p ∷ t.payments;
            next_payment = suc t.next_payment;
          } in
          let hit : is_payment sub.shop_id r.transaction_id p ≡ true =
            rw (eq_refl r.transaction_id) (ground arith) in
          rw new (
            p,
            t',
            >>=-ok (transition paid SubStatus.active) (λ _. enter_payment now sub r) _ ran,
            rw hit refl,
          )
      | inr (p, e) ↦ rw e (p, b, refl, e)
    ]

abbrev Found : ℕ → String → Result Payment × Billing → Type 0
Found shop_id txn (ok p, t) = select_one (is_payment shop_id txn) t.payments ≡ some p
Found shop_id txn (err e, t) = Unit {0}

-- A provider that repeats a message (the same shop, the same transaction, whatever else it says)
-- gets the payment that the first one recorded, and nothing changes: no period grows twice.
pub record_payment-again :
    (now now' : ℕ) (sub sub' : Subscription) (r r' : Receipt) (b t : Billing) (p : Payment)
    → record_payment now sub r b ≡ (ok p, t)
    → sub'.shop_id ≡ sub.shop_id
    → r'.transaction_id ≡ r.transaction_id
    → record_payment now' sub' r' t ≡ (ok p, t)
unfolding record_payment
record_payment-again now now' sub sub' r r' b t p ran shop txn =
    let (q, u, did, found) = records now sub r b in
    let stands : select_one (is_payment sub.shop_id r.transaction_id) t.payments ≡ some p =
      subst (Found sub.shop_id r.transaction_id) (sym did ∙ ran) found in
    rw (shop, txn, stands) refl
