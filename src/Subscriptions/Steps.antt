-- ===== src/Subscriptions/Steps.antt =====
-- app/services/subscriptions.py: what each operation may do to the status of a subscription.
use skladbase.Prelude.{◌≡◌, String, true, Option, arith}
use skladbase.Models.{SubStatus, Plan}
use skladbase.Subscriptions.{Receipt, allowed}

-- The operations of the service on a subscription.
pub data Op : Type 0 where
  starts_trial : Option Plan → Op
  pays : Receipt → Op
  fails_to_pay cancels expires : Op
  redeems : (String → String) → String → Op

-- What each operation is for: a payment or a code makes a subscription active from any status, a
-- refused charge makes an active one past due, only one that is neither canceled nor expired is
-- canceled, and any one expires. Nothing makes a stored subscription a trial.
pub data Step : Op → SubStatus → SubStatus → Type 0 where
  unchanged : {op : Op} {s : SubStatus} → Step op s s
  renews : {r : Receipt} {s : SubStatus} → Step (pays r) s SubStatus.active
  grants :
      {f : String → String} {c : String} {s : SubStatus} → Step (redeems f c) s SubStatus.active
  fails : Step fails_to_pay SubStatus.active SubStatus.past_due
  cancels_trial : Step cancels SubStatus.trial SubStatus.canceled
  cancels_active : Step cancels SubStatus.active SubStatus.canceled
  cancels_late : Step cancels SubStatus.past_due SubStatus.canceled
  lapses : {s : SubStatus} → Step expires s SubStatus.expired

-- What the table of the code lets an operation do is what the operation is for.
abbrev pub IsStep : Op → SubStatus → Type 0
IsStep op to = (st : SubStatus) → allowed st to ≡ true → Step op st to

pub fails-IsStep : IsStep fails_to_pay SubStatus.past_due
unfolding allowed
fails-IsStep SubStatus.active a = fails
fails-IsStep SubStatus.trial a = absurd (ground arith)
fails-IsStep SubStatus.past_due a = absurd (ground arith)
fails-IsStep SubStatus.canceled a = absurd (ground arith)
fails-IsStep SubStatus.expired a = absurd (ground arith)

pub cancels-IsStep : IsStep cancels SubStatus.canceled
unfolding allowed
cancels-IsStep SubStatus.trial a = cancels_trial
cancels-IsStep SubStatus.active a = cancels_active
cancels-IsStep SubStatus.past_due a = cancels_late
cancels-IsStep SubStatus.canceled a = absurd (ground arith)
cancels-IsStep SubStatus.expired a = absurd (ground arith)
