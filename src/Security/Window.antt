-- ===== src/Security/Window.antt =====
-- app/security/rate_limit.py: how many hits of a key a window can hold.
use text.Mathlib.TextEquality.{eq_iff}
use skladbase.Prelude.{
  ℕ, suc, ◌+◌, ◌-◌, ◌≤◌, ◌<◌, ◌≡◌, refl, sym, ◌∙◌, ap, subst, inl, inr, String, Bool, true, ◌&&◌,
  not, List, [], ◌∷◌, ◌++◌, ltb, leb, if◌then◌else◌, length, str_eq, arith, All, All-imp, keep,
  Bool-cases,
}
use skladbase.Security.RateLimit.{RateLimiter, trim, hit}

-- How many hits of a log are not older than the window.
unfoldable pub recent : ℕ → ℕ → List ℕ → ℕ
recent w now log = length (keep (λ t. not (ltb w (now - t))) log)

abbrev Gone : ℕ → ℕ → List ℕ → Type 0
Gone w now ts = All (λ t. t + w < now) ts

-- What the bucket has of the hits that were admitted: all but some that are too old.
record Window (w max now : ℕ) (log bucket : List ℕ) : Type 0 where
  old : List ℕ
  split : old ++ bucket ≡ log
  gone : Gone w now old
  fits : length bucket ≤ max

append_assoc : (a b c : List ℕ) → a ++ b ++ c ≡ a ++ (b ++ c)
append_assoc [] b c = refl
append_assoc (x ∷ a) b c = ap (λ l. x ∷ l) (append_assoc a b c)

Gone-append : (w now : ℕ) (a b : List ℕ) → Gone w now a → Gone w now b → Gone w now (a ++ b)
Gone-append w now [] b h k = k
Gone-append w now (x ∷ a) b h k = (h.0, Gone-append w now a b h.1 k)

length-append_one : (a : List ℕ) (t : ℕ) → length (a ++ (t ∷ [])) ≡ suc (length a)
length-append_one [] t = refl
length-append_one (x ∷ a) t = ap suc (length-append_one a t)

recent-gone :
    (w now : ℕ) (old bucket : List ℕ)
    → Gone w now old
    → recent w now (old ++ bucket) ≡ recent w now bucket
unfolding recent
recent-gone w now [] bucket g = refl
recent-gone w now (t ∷ old) bucket g = ground (arith, g.0, recent-gone w now old bucket g.1)

recent-length : (w now : ℕ) (ts : List ℕ) → recent w now ts ≤ length ts
unfolding recent
recent-length w now [] = omega arith
recent-length w now (t ∷ ts) = ground (arith, recent-length w now ts)

Window-recent :
    (w max now : ℕ) (log bucket : List ℕ) → Window w max now log bucket → recent w now log ≤ max
Window-recent w max now log bucket h =
    let bound = recent-length w now bucket in
    let same = recent-gone w now h.old bucket h.gone in
    subst (λ l. recent w now l ≤ max) h.split (omega (arith, same, bound, h.fits))

-- What the loop pops is too old.
trim-split :
    (w now : ℕ) (b : List ℕ) → (popped : List ℕ) × (popped ++ trim w now b ≡ b) × Gone w now popped
unfolding trim
trim-split w now [] = ([], refl, tt)
trim-split w now (t ∷ b) = elim (Bool-cases (ltb w (now - t))) [
  | inl old ↦
      let (popped, e, g) = trim-split w now b in
      rw old (t ∷ popped, ap (λ l. t ∷ l) e, (ground arith, g))
  | inr fresh ↦ rw fresh ([], refl, tt)
]

trim-length : (w now : ℕ) (b : List ℕ) → length (trim w now b) ≤ length b
unfolding trim
trim-length w now [] = omega arith
trim-length w now (t ∷ b) = ground (arith, trim-length w now b)

Window-trim :
    (w max now later : ℕ) (log bucket : List ℕ)
    → now ≤ later
    → Window w max now log bucket
    → Window w max later log (trim w later bucket)
Window-trim w max now later log bucket h win =
    let (popped, e, g) = trim-split w later bucket in
    record {
      old = win.old ++ popped;
      split =
          append_assoc win.old popped (trim w later bucket) ∙ ap (λ l. win.old ++ l) e ∙ win.split;
      gone =
          Gone-append w later win.old popped
            (All-imp _ _ win.old win.gone (λ t k. omega (arith, h, k))) g;
      fits = omega (arith, trim-length w later bucket, win.fits);
    }

-- A request at a time under a key.
abbrev pub Hit : Type 0
Hit = String × ℕ

-- The times of the requests of a key that are let through, in order, behind those of a log.
unfoldable pub admitted_times : String → RateLimiter → List ℕ → List Hit → List ℕ
unfolding hit
admitted_times k l log [] = log
admitted_times k l log (q ∷ qs) =
    let (b, l') = hit q.0 q.1 l in
    admitted_times k l' (if b && str_eq k q.0 then log ++ (q.1 ∷ []) else log) qs

-- The clock does not go back, and does not pass `last`.
abbrev pub Ascending : ℕ → ℕ → List Hit → Type 0
Ascending now last [] = now ≤ last
Ascending now last (q ∷ qs) = (now ≤ q.1) × Ascending q.1 last qs

Window-later :
    (w max now later : ℕ) (log bucket : List ℕ)
    → now ≤ later
    → Window w max now log bucket
    → Window w max later log bucket
Window-later w max now later log bucket h win = record {
  old = win.old;
  split = win.split;
  gone = All-imp _ _ win.old win.gone (λ t k. omega (arith, h, k));
  fits = win.fits;
}

Window-append :
    (w max now : ℕ) (log bucket : List ℕ)
    → length bucket < max
    → Window w max now log bucket
    → Window w max now (log ++ (now ∷ [])) (bucket ++ (now ∷ []))
Window-append w max now log bucket h win = record {
  old = win.old;
  split = sym (append_assoc win.old bucket (now ∷ [])) ∙ ap (λ l. l ++ (now ∷ [])) win.split;
  gone = win.gone;
  fits = omega (arith, h, length-append_one bucket now);
}

-- A request, seen from a key: the settings stay, and the log and the bucket still fit.
record Stepped (k : String) (w max t : ℕ) (log : List ℕ) (key : String) (out : Bool × RateLimiter)
    : Type 0 where
  same_window : out.1.window_seconds ≡ w
  same_max : out.1.max_requests ≡ max
  fits : Window w max t (if out.0 && str_eq k key then log ++ (t ∷ []) else log) (out.1.hits k)

hit-Stepped :
    (k : String) (now : ℕ) (l : RateLimiter) (log : List ℕ) (key : String) (t : ℕ)
    → now ≤ t
    → Window l.window_seconds l.max_requests now log (l.hits k)
    → Stepped k l.window_seconds l.max_requests t log key (hit key t l)
unfolding hit
hit-Stepped k now l log key t h win =
    let w = l.window_seconds in
    let max = l.max_requests in
    let bucket = trim w t (l.hits key) in
    let later = Window-later w max now t log (l.hits k) h win in
    let mine_fits : (str_eq k key ≡ true) → Window w max t log bucket = λ e.
      Window-trim w max now t log (l.hits key) h
        (subst (λ j. Window w max now log (l.hits j)) ((eq_iff k key).0 e) win) in
    elim (Bool-cases (leb max (length bucket))) [
      | inl full ↦ elim (Bool-cases (str_eq k key)) [
        | inl mine ↦
            rw full
              (record { same_window = refl; same_max = refl; fits = rw mine (mine_fits mine) })
        | inr other ↦
            rw full (record { same_window = refl; same_max = refl; fits = rw other later })
      ]
      | inr room ↦ elim (Bool-cases (str_eq k key)) [
        | inl mine ↦ rw room (record {
          same_window = refl;
          same_max = refl;
          fits = rw mine (Window-append w max t log bucket (ground arith) (mine_fits mine));
        })
        | inr other ↦
            rw room (record { same_window = refl; same_max = refl; fits = rw other later })
      ]
    ]

bounded_from :
    (k : String) (w max now last : ℕ) (l : RateLimiter) (log : List ℕ) (qs : List Hit)
    → l.window_seconds ≡ w
    → l.max_requests ≡ max
    → Ascending now last qs
    → Window w max now log (l.hits k)
    → recent w last (admitted_times k l log qs) ≤ max
unfolding admitted_times
bounded_from k w max now last l log [] ew em h win =
    Window-recent w max last log (l.hits k) (Window-later w max now last log (l.hits k) h win)
bounded_from k w max now last l log (q ∷ qs) ew em h win =
    let step = hit-Stepped k now l log q.0 q.1 h.0 (rw (ew, em) win) in
    let l' = (hit q.0 q.1 l).1 in
    let log' : List ℕ = if (hit q.0 q.1 l).0 && str_eq k q.0 then log ++ (q.1 ∷ []) else log in
    bounded_from k w max q.1 last l' log' qs (step.same_window ∙ ew) (step.same_max ∙ em) h.1 (
      subst (λ v. Window v max q.1 log' (l'.hits k)) ew
        (subst (λ m. Window l.window_seconds m q.1 log' (l'.hits k)) em step.fits))

-- From a fresh limiter, whatever requests come under whatever keys: at any time from the last
-- request on, those of a key that were let through and are not older than the window are at most
-- the limit.
pub hit-bounded :
    (max w last : ℕ) (k : String) (qs : List Hit)
    → Ascending 0 last qs
    → recent w last
        (admitted_times k (record { max_requests = max; window_seconds = w; hits = λ j. [] }) [] qs)
      ≤ max
hit-bounded max w last k qs h =
    bounded_from k w max 0 last (record { max_requests = max; window_seconds = w; hits = λ j. [] })
      [] qs refl refl h (record { old = []; split = refl; gone = tt; fits = omega arith })
