-- ===== src/Tasks/Expiry.antt =====
-- app/tasks.py: what `expire_subscriptions` and `send_renewal_reminders` do to the table.
use skladbase.Prelude.{
  ℕ, ◌≡◌, refl, ◌∙◌, ap, true, false, List, [], ◌∷◌, arith, if◌then◌else◌, keep, All, map, some,
  is_some,
}
use skladbase.Prelude.Tables.{save, Below}
use skladbase.Prelude.Updates.{
  some-of, save_each, save_each-map, save-save, All-keep, All-kept, keep-map_none,
}
use skladbase.Models.{server_error, Shop, SubStatus, Subscription, Billing, same_status}
use skladbase.Session.{Result, ok, Action, or_raise, ◌>>=◌, ◌>>◌, >>=-ok, pure, Tx, commit_tx}
use skladbase.Session.Whole.{opened}
use skladbase.Subscriptions.{expire, set_sub, transition, allowed}
use skladbase.Tasks.Renewals.{
  is_lapsed, expire_each, expire_subscriptions, is_reminded, remind, remind_each,
  send_renewal_reminders, owner_of, get_owner, committing, expire_candidates, remind_ending,
}

abbrev pub ended : Subscription → Subscription
ended s = record s { status = SubStatus.expired; auto_renew = false }

expire-ended :
    (s : Subscription) (b : Billing)
    → same_status SubStatus.expired s.status ≡ false
    → allowed s.status SubStatus.expired ≡ true
    → expire s b
      ≡ (ok (ended s), record b { subscriptions = save Subscription.id (ended s) b.subscriptions })
unfolding expire transition
expire-ended s b e a =
    rw
      (
        e,
        a,
        save-save Subscription.id (ended s) (record s { status = SubStatus.expired })
            b.subscriptions refl,
      )
      refl

lapsed-allowed :
    (now : ℕ) (s : Subscription)
    → is_lapsed now s ≡ true
    → (same_status SubStatus.expired s.status ≡ false) × (allowed s.status SubStatus.expired ≡ true)
unfolding is_lapsed allowed
lapsed-allowed now s e = ground arith

-- Each subscription's shop is in the table, as the foreign key says.
abbrev pub Owned : List Shop → Subscription → Type 0
Owned shops s = is_some (owner_of shops s.shop_id) ≡ true

-- Who is told: the owners of the shops of some subscriptions, in their order.
abbrev pub Tells : List Shop → List Subscription → List ℕ → Type 0
Tells shops ss told = map some told ≡ map (λ s. owner_of shops s.shop_id) ss

-- A loop over some rows that returns, tells their owners, and leaves the tables as they are said.
abbrev Loop :
    List Shop
    → List Subscription
    → (List Subscription → List Subscription)
    → Action Billing (List ℕ)
    → Billing
    → Type 0
Loop shops ss f m b =
    (told : List ℕ) × Tells shops ss told
    × (m b ≡ (ok told, record b { subscriptions = f b.subscriptions }))

expire_each-saves :
    (shops : List Shop) (now : ℕ) (ss : List Subscription) (b : Billing)
    → All (λ s. is_lapsed now s ≡ true) ss
    → All (Owned shops) ss
    → Loop shops ss (save_each Subscription.id ended ss) (expire_each shops ss) b
unfolding expire_each save_each
expire_each-saves shops now [] b h k = ([], refl, refl)
expire_each-saves shops now (s ∷ ss) b h k =
    let (e, a) = lapsed-allowed now s h.0 in
    let (owner, found) = some-of (owner_of shops s.shop_id) k.0 in
    let c = record b { subscriptions = save Subscription.id (ended s) b.subscriptions } in
    let (told, tells, rest) = expire_each-saves shops now ss c h.1 k.1 in
    let tail : Action Billing (List ℕ) = expire_each shops ss >>= λ told. pure (owner ∷ told) in
    let ended_first =
      >>=-ok (expire s)
        (λ _. get_owner shops s.shop_id >>= λ o. expire_each shops ss >>= λ told. pure (o ∷ told)) b
        (expire-ended s b e a) in
    (
      owner ∷ told,
      rw (tells, found) refl,
      ended_first
          ∙ ap
              (λ o.
                (or_raise o server_error >>= λ o. expire_each shops ss >>= λ told. pure (o ∷ told))
                  c)
              found
          ∙ >>=-ok (expire_each shops ss) (λ told. pure (owner ∷ told)) c rest,
    )

ended-is_lapsed :
    (now : ℕ) (s : Subscription) → is_lapsed now s ≡ true → is_lapsed now (ended s) ≡ false
unfolding is_lapsed
ended-is_lapsed now s e = ground arith

-- What a job comes to, from tables that are committed: it commits and tells as it is said.
abbrev pub Commits : List Shop → List Subscription → Billing → Result (List ℕ) × Tx Billing → Type 0
Commits shops ss t out = (told : List ℕ) × Tells shops ss told × (out ≡ (ok told, opened t))

committing-Commits :
    (shops : List Shop) (ss : List Subscription) (m : Action Billing (List ℕ)) (b t : Billing)
    → (told : List ℕ) × Tells shops ss told × (m b ≡ (ok told, t))
    → Commits shops ss t (committing m (opened b))
committing-Commits shops ss m b t (told, tells, ran) = (
  told,
  tells,
  ap
      (λ out.
        ((λ _. (out.0, record (opened b) { work = out.1 })) >>= λ a. commit_tx >> pure a)
          (opened b))
      ran,
)

-- Where keys are unique and each subscription has its shop, the job never raises. It commits every
-- selected subscription as expired and without renewal, a past due one with renewal too, and every
-- other row as it was; it tells exactly the owners of the selected ones, one after another; and what
-- is committed has no row that it would select.
pub expire_subscriptions-map :
    (shops : List Shop) (now n : ℕ) (b : Billing)
    → Below Subscription.id n b.subscriptions
    → All (Owned shops) b.subscriptions
    → let t : Billing = record b {
      subscriptions = map (λ s. if is_lapsed now s then ended s else s) b.subscriptions;
    } in
      Commits shops
        (keep (is_lapsed now) b.subscriptions)
        t
        (expire_subscriptions shops now (opened b))
      × (keep (is_lapsed now) t.subscriptions ≡ [])
unfolding expire_subscriptions
expire_subscriptions-map shops now n b numbered owned =
    let ss = keep (is_lapsed now) b.subscriptions in
    let (told, tells, loop) =
      expire_each-saves shops now ss b (All-keep (is_lapsed now) b.subscriptions)
        (All-kept (Owned shops) (is_lapsed now) b.subscriptions owned) in
    let rows =
      save_each-map Subscription.id ended (is_lapsed now) n b.subscriptions (λ s. refl) numbered in
    (
      committing-Commits shops ss (expire_candidates shops now) b _
          (told, tells, loop ∙ ap (λ xs. (ok told, record b { subscriptions = xs })) rows),
      keep-map_none (is_lapsed now) ended b.subscriptions (ended-is_lapsed now),
    )

remind_each-saves :
    (shops : List Shop) (ss : List Subscription) (b : Billing)
    → All (Owned shops) ss
    → Loop shops ss (save_each Subscription.id remind ss) (remind_each shops ss) b
unfolding remind_each save_each
remind_each-saves shops [] b k = ([], refl, refl)
remind_each-saves shops (s ∷ ss) b k =
    let (owner, found) = some-of (owner_of shops s.shop_id) k.0 in
    let c = record b { subscriptions = save Subscription.id (remind s) b.subscriptions } in
    let (told, tells, rest) = remind_each-saves shops ss c k.1 in
    (
      owner ∷ told,
      rw (tells, found) refl,
      ap
            (λ o.
              (or_raise o server_error >>= λ o.
              set_sub (remind s) >> (remind_each shops ss >>= λ told. pure (o ∷ told)))
                b)
            found
          ∙ >>=-ok (remind_each shops ss) (λ told. pure (owner ∷ told)) c rest,
    )

remind-is_reminded :
    (now : ℕ) (s : Subscription) → is_reminded now s ≡ true → is_reminded now (remind s) ≡ false
unfolding is_reminded
remind-is_reminded now s e = ground arith

-- Where keys are unique and each subscription has its shop, the job never raises. It commits exactly
-- the selected subscriptions as reminded, and tells exactly their owners; run again at the same time,
-- it tells nobody.
pub send_renewal_reminders-map :
    (shops : List Shop) (now n : ℕ) (b : Billing)
    → Below Subscription.id n b.subscriptions
    → All (Owned shops) b.subscriptions
    → let t : Billing = record b {
      subscriptions = map (λ s. if is_reminded now s then remind s else s) b.subscriptions;
    } in
      Commits shops
        (keep (is_reminded now) b.subscriptions)
        t
        (send_renewal_reminders shops now (opened b))
      × (send_renewal_reminders shops now (opened t) ≡ (ok [], opened t))
unfolding send_renewal_reminders remind_each
send_renewal_reminders-map shops now n b numbered owned =
    let ss = keep (is_reminded now) b.subscriptions in
    let (told, tells, loop) =
      remind_each-saves shops ss b
        (All-kept (Owned shops) (is_reminded now) b.subscriptions owned) in
    let rows =
      save_each-map Subscription.id remind (is_reminded now) n b.subscriptions (λ s. refl)
        numbered in
    let none_left =
      keep-map_none (is_reminded now) remind b.subscriptions (remind-is_reminded now) in
    (
      committing-Commits shops ss (remind_ending shops now) b _
          (told, tells, loop ∙ ap (λ xs. (ok told, record b { subscriptions = xs })) rows),
      ap
          (λ xs. committing (remind_each shops xs) (
            opened (record b {
              subscriptions = map (λ s. if is_reminded now s then remind s else s) b.subscriptions;
            })))
          none_left,
    )
