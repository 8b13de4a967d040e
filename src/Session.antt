-- ===== src/Session.antt =====
-- What a service call is: a computation on a state that may raise (`async def … raise`). The state
-- comes back after a raise too, since what was written stays written until a rollback.
pub mod Whole
use skladbase.Prelude.{◌≡◌, ap, Bool, Option, none, some, if◌then◌else◌}
use skladbase.Models.{Error, Db}

pub data Result (A : Type 0) : Type 0 where
  ok : A → Result A
  err : Error → Result A

-- An SQLAlchemy session: what the database holds, and what this transaction has made of it.
pub record Session : Type 0 where
  pub committed : Db
  pub work : Db

abbrev pub Action : Type 0 → Type 0 → Type 0
Action S A = S → Result A × S

module _ {S : Type 0} {A : Type 0} where
  abbrev pub pure : A → Action S A
  pure a s = (ok a, s)

  abbrev pub raise : Error → Action S A
  raise e s = (err e, s)

  abbrev pub gets : (S → A) → Action S A
  gets f s = (ok (f s), s)

  abbrev pub or_raise : Option A → Error → Action S A
  or_raise none e = raise e
  or_raise (some a) e = pure a

infixl 5 ◌>>=◌ ◌>>◌
abbrev pub ◌>>=◌ : {S A B : Type 0} → Action S A → (A → Action S B) → Action S B
◌>>=◌ m f s = let (r, t) = m s in elim r [ ok a ↦ f a t | err e ↦ (err e, t) ]

abbrev pub ◌>>◌ : {S A B : Type 0} → Action S A → Action S B → Action S B
m >> k = m >>= λ _. k

module _ {S : Type 0} where
  abbrev pub raise_if : Bool → Error → Action S (Unit {0})
  raise_if c e s = (if c then err e else ok tt, s)

  abbrev pub modify : (S → S) → Action S (Unit {0})
  modify f s = (ok tt, f s)

-- A request whose exception ends its session before the commit: what it has written is gone.
abbrev pub undone : {S A : Type 0} → S → Result A × S → Result A × S
undone s (ok a, t) = (ok a, t)
undone s (err e, t) = (err e, s)

abbrev pub transaction : {S A : Type 0} → Action S A → Action S A
transaction m s = undone s (m s)

-- a write of the transaction
abbrev pub write : (Db → Db) → Action Session (Unit {0})
write f s = (ok tt, record s { work = f s.work })

-- a read of the transaction
abbrev pub query : {A : Type 0} → (Db → A) → Action Session A
query f s = (ok (f s.work), s)

-- `session.commit()`
abbrev pub commit_all : Action Session (Unit {0})
commit_all s = (ok tt, record s { committed = s.work })

-- `session.rollback()`
abbrev pub rollback : Action Session (Unit {0})
rollback s = (ok tt, record s { work = s.committed })

-- A step that returned, and what comes after it.
pub >>=-ok :
    {S A B : Type 0} (m : Action S A) (f : A → Action S B) (s : S) {a : A} {t : S}
    → m s ≡ (ok a, t)
    → (m >>= f) s ≡ f a t
>>=-ok {S} {A} m f s e = ap (λ (out : Result A × S). ((λ _. out) >>= f) s) e

-- A session on other tables than those of stock.
pub record Tx (S : Type 0) : Type 0 where
  pub committed : S
  pub work : S

module _ {S : Type 0} where
  abbrev pub change : (S → S) → Action (Tx S) (Unit {0})
  change f s = (ok tt, record s { work = f s.work })

  abbrev pub look : {A : Type 0} → (S → A) → Action (Tx S) A
  look f s = (ok (f s.work), s)

  abbrev pub commit_tx : Action (Tx S) (Unit {0})
  commit_tx s = (ok tt, record s { committed = s.work })

  abbrev pub rollback_tx : Action (Tx S) (Unit {0})
  rollback_tx s = (ok tt, record s { work = s.committed })
