-- ===== src/Session/Whole.antt =====
-- Calls that are all or nothing: one that raises has changed nothing, and one that returns has
-- committed all it wrote.
use skladbase.Prelude.{◌≡◌, refl, sym, ap, ◌∙◌, subst, Bool, true, false, Option, none, some}
use skladbase.Models.{Error}
use skladbase.Session.{Action, Result, ok, err, or_raise, raise_if, ◌>>=◌, Tx}

module _ {S : Type 0} where
  abbrev pub opened : S → Tx S
  opened s = record { committed = s; work = s }

  -- A step that only looks.
  abbrev pub Still : {A : Type 0} → Action (Tx S) A → Type 0
  Still m = (s : Tx S) → (m s).1 ≡ s

  pub over-Still :
      {A B : Type 0} (f : A → Action (Tx S) B) (s : Tx S) (out : Result A × Tx S)
      → out.1 ≡ s
      → ((a : A) → Still (f a))
      → (((λ _. out) >>= f) s).1 ≡ s
  over-Still f s (ok a, t) e h = h a t ∙ e
  over-Still f s (err x, t) e h = e

  pub bind-Still :
      {A B : Type 0} (m : Action (Tx S) A) (f : A → Action (Tx S) B)
      → Still m
      → ((a : A) → Still (f a))
      → Still (m >>= f)
  bind-Still m f h g s = over-Still f s (m s) (h s) g

  pub or_raise-Still : {A : Type 0} (o : Option A) (e : Error) → Still {A = A} (or_raise o e)
  or_raise-Still none e s = refl
  or_raise-Still (some a) e s = refl

  abbrev result_of : {A : Type 0} → Result A × Tx S → Option A
  result_of (ok a, t) = some a
  result_of (err e, t) = none

  abbrev raised : Result (Unit {0}) × Tx S → Bool
  raised (ok a, t) = false
  raised (err e, t) = true

  -- What a look-up that returned has found.
  pub loaded :
      {A : Type 0} (o : Option A) (s : Tx S) (c : Error) {x : A}
      → or_raise o c s ≡ (ok x, s)
      → o ≡ some x
  loaded none s c e = ap result_of e
  loaded (some y) s c e = ap result_of e

  -- A guard that let the call go on.
  pub passed : (b : Bool) (s : Tx S) (c : Error) → raise_if b c s ≡ (ok tt, s) → b ≡ false
  passed true s c e = ap raised e
  passed false s c e = refl

  module _ (P : S → Type 0) where
    -- What was committed by a call that returned has the property.
    abbrev pub Whole : {A : Type 0} → S → Result A × Tx S → Type 0
    Whole s (err e, t) = t ≡ opened s
    Whole s (ok a, t) = P t.committed × (t ≡ opened t.committed)

    over-Whole :
        {A B : Type 0} (f : A → Action (Tx S) B) (s : S) (out : Result A × Tx S)
        → out.1 ≡ opened s
        → ((a : A) → out ≡ (ok a, opened s) → Whole s (f a (opened s)))
        → Whole s (((λ _. out) >>= f) (opened s))
    over-Whole f s (ok a, t) e h =
        subst (λ u. Whole s (f a u)) (sym e) (h a (ap (λ (u : Tx S). (ok a, u)) e))
    over-Whole f s (err x, t) e h = e

    -- What follows a step that only looks.
    pub after :
        {A B : Type 0} (m : Action (Tx S) A) (f : A → Action (Tx S) B) (s : S)
        → Still m
        → ((a : A) → m (opened s) ≡ (ok a, opened s) → Whole s (f a (opened s)))
        → Whole s ((m >>= f) (opened s))
    after m f s still h = over-Whole f s (m (opened s)) (still (opened s)) h
