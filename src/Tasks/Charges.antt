-- ===== src/Tasks/Charges.antt =====
-- app/tasks.py: `charge_due_card_subscriptions`.
use mathlib.Core.List.Memᴰ
use skladbase.Prelude.{
  Memᴰ, ◌⊎◌, ap, length, ℕ, ◌≡◌, refl, ◌∙◌, Bool, true, false, Option, List, [], ◌∷◌, arith, keep,
  All, inl, inr, Bool-cases, String,
}
use skladbase.Prelude.Updates.{All-keep, All-kept}
use skladbase.Models.{Error, server_error, Shop, Subscription, Plan, Billing}
use skladbase.Session.{ok, err, Action, >>=-ok, pure, ◌>>=◌, ◌>>◌, commit_tx}
use skladbase.Session.Whole.{opened}
use skladbase.Tasks.Expiry.{Owned}
use skladbase.Tasks.Renewals.{
  is_chargeable, plan_of, ChargeReport, committing, answer_of, charge_due, charge_one, charge_each,
  charge_due_card_subscriptions,
}
use skladbase.Tasks.Turns.{
  plan_in, is_answered, length-if, >>=-err, answers, approves, charge_one-stops, turn-Steps,
  and_rest,
}

-- A test holds of all of a list, or fails on one of them.
All-or-one :
    (p : Subscription → Bool) (xs : List Subscription)
    → All (λ x. p x ≡ true) xs ⊎ ((x : Subscription) × Memᴰ x xs × (p x ≡ false))
All-or-one p [] = inl tt
All-or-one p (x ∷ xs) = elim (Bool-cases (p x)) [
  | inr f ↦ inr (x, Memᴰ.head refl, f)
  | inl t ↦ elim (All-or-one p xs) [
    | inl ts ↦ inl (t, ts)
    | inr (y, m, f) ↦ inr (y, Memᴰ.tail m, f)
  ]
]

module _ (shops : List Shop) (charge_recurring : Option String → String → ℕ → Option Bool)
    (order_ref : ℕ → ℕ → String) (now : ℕ) where
  abbrev pub Answered : List Plan → Subscription → Type 0
  Answered plans s = answers shops charge_recurring order_ref now plans s ≡ true

  -- The loop, when the provider answers each time.
  charge_each-Returns :
      (plans : List Plan) (ss : List Subscription) (b : Billing)
      → b.plans ≡ plans
      → All (λ s. is_chargeable now s ≡ true) ss
      → All (Owned shops) ss
      → All (λ s. answers shops charge_recurring order_ref now plans s ≡ true) ss
      → (c : ChargeReport) × (t : Billing) × (charge_each shops charge_recurring order_ref now ss b
          ≡ (ok c, t))
        × (c.count ≡ length (keep (approves shops charge_recurring order_ref now plans) ss))
  unfolding charge_each
  charge_each-Returns plans [] b same h k a = (_, b, refl, refl)
  charge_each-Returns plans (s ∷ ss) b same h k a =
      let (add, t, ran, kept, counts) =
        turn-Steps shops charge_recurring order_ref now plans s b same h.0 k.0 a.0 in
      let (c, u, rest, n) = charge_each-Returns plans ss t (kept ∙ same) h.1 k.1 a.1 in
      (
        add c,
        u,
        >>=-ok (charge_one shops charge_recurring order_ref now s (plan_of s b))
              (and_rest shops charge_recurring order_ref now ss) b ran
            ∙ >>=-ok (charge_each shops charge_recurring order_ref now ss) (λ rest. pure (add rest))
                t rest,
        length-if (approves shops charge_recurring order_ref now plans s) s
            (keep (approves shops charge_recurring order_ref now plans) ss) (counts c) n,
      )

  -- The loop, when the provider does not answer on one of the subscriptions.
  charge_each-stops :
      (plans : List Plan) (ss : List Subscription) (s : Subscription) (b : Billing)
      → b.plans ≡ plans
      → All (λ s. is_chargeable now s ≡ true) ss
      → All (Owned shops) ss
      → Memᴰ s ss
      → answers shops charge_recurring order_ref now plans s ≡ false
      → (t : Billing) × (charge_each shops charge_recurring order_ref now ss b
          ≡ (err server_error, t))
  unfolding charge_each
  charge_each-stops plans [] s b same h k m a = absurd (Memᴰ.not-nil m)
  charge_each-stops plans (x ∷ ss) s b same h k m a =
      elim (Bool-cases (answers shops charge_recurring order_ref now plans x)) [
        | inl answered ↦
            let (add, t, ran, kept, counts) =
              turn-Steps shops charge_recurring order_ref now plans x b same h.0 k.0 answered in
            let later : Memᴰ s ss = elim (Memᴰ.cases_cons m) [
              | inl e ↦
                  absurd (ground (arith, ap (answers shops charge_recurring order_ref now plans) e))
              | inr n ↦ n
            ] in
            let (u, stopped) = charge_each-stops plans ss s t (kept ∙ same) h.1 k.1 later a in
            (
              u,
              >>=-ok (charge_one shops charge_recurring order_ref now x (plan_of x b))
                    (and_rest shops charge_recurring order_ref now ss) b ran
                  ∙ >>=-err (charge_each shops charge_recurring order_ref now ss)
                      (λ rest. pure (add rest)) t stopped,
            )
        | inr silent ↦ (
          b,
          >>=-err (charge_one shops charge_recurring order_ref now x (plan_of x b))
              (and_rest shops charge_recurring order_ref now ss) b
              (charge_one-stops shops charge_recurring order_ref now x (plan_of x b) b (
                ap
                  (λ ps.
                    is_answered (plan_in ps x) (answer_of shops charge_recurring order_ref now x))
                  same
                ∙ silent)),
        )
      ]

  committed :
      (m : Action Billing ChargeReport) (b : Billing) {c : ChargeReport} {t : Billing}
      → m b ≡ (ok c, t)
      → committing m (opened b) ≡ (ok c, opened t)
  committed m b ran =
      ap
        (λ out.
          ((λ _. (out.0, record (opened b) { work = out.1 })) >>= λ a. commit_tx >> pure a)
            (opened b))
        ran

  discarded :
      (m : Action Billing ChargeReport) (b : Billing) {e : Error} {t : Billing}
      → m b ≡ (err e, t)
      → committing m (opened b) ≡ (err e, record { committed = b; work = t })
  discarded m b ran =
      ap
        (λ out.
          ((λ _. (out.0, record (opened b) { work = out.1 })) >>= λ a. commit_tx >> pure a)
            (opened b))
        ran

  -- Where each subscription has its shop, a pass ends in one of two ways. Either the provider answers
  -- on every card that is due, and the pass returns, commits, and counts exactly the cards whose
  -- charge was approved; or it does not answer on one of them, and the pass raises and commits
  -- nothing, not even the payments that it took before.
  pub charge_due_card_subscriptions-Settles :
      (b : Billing)
      → All (Owned shops) b.subscriptions
      → let due = keep (is_chargeable now) b.subscriptions in
        let pass = charge_due_card_subscriptions shops charge_recurring order_ref now (opened b) in
        (All (Answered b.plans) due
          × (c : ChargeReport) × (t : Billing) × (pass ≡ (ok c, opened t))
          × (c.count ≡ length (keep (approves shops charge_recurring order_ref now b.plans) due)))
        ⊎ ((s : Subscription) × Memᴰ s due
            × (answers shops charge_recurring order_ref now b.plans s ≡ false)
            × (t : Billing) × (pass ≡ (err server_error, record { committed = b; work = t })))
  unfolding charge_due_card_subscriptions
  charge_due_card_subscriptions-Settles b owned =
      let due = keep (is_chargeable now) b.subscriptions in
      let job = charge_due shops charge_recurring order_ref now in
      let chosen = All-keep (is_chargeable now) b.subscriptions in
      let theirs = All-kept (Owned shops) (is_chargeable now) b.subscriptions owned in
      elim (All-or-one (answers shops charge_recurring order_ref now b.plans) due) [
        | inl h ↦
            let (c, t, ran, n) = charge_each-Returns b.plans due b refl chosen theirs h in
            inl (h, c, t, committed job b ran, n)
        | inr (s, m, a) ↦
            let (t, ran) = charge_each-stops b.plans due s b refl chosen theirs m a in
            inr (s, m, a, t, discarded job b ran)
      ]
