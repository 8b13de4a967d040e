-- ===== src/Prelude/Numerals.antt =====
-- Reading back what was printed: `int(str(n))`, and splitting what was joined.
use Prim.Native.Nat.{ℕ, zero, suc, ◌+◌, ◌*◌, ◌/◌, ◌%◌, ◌≤◌, ◌<◌, ◌-◌}
use mathlib.Core.Path.{◌≡◌, refl, sym, ◌∙◌, ap}
use mathlib.Core.Logic.{inl, inr}
use mathlib.Core.Bool.{Bool, true, false}
use mathlib.Core.Option.{some}
use mathlib.Core.List.{List, [], ◌∷◌, ◌++◌}
use native.Mathlib.Omega.{arith}
use skladbase.Prelude.Tests.{ltb, ◌==◌, Bool-cases}
use skladbase.Prelude.Lists.{All}
use skladbase.Prelude.Int.{pos}
use skladbase.Prelude.Texts.{
  digit_value, is_space, lstrip, rstrip, int_digits, signed, int, decimal, str, split, join,
  counted,
}

-- A code point of an ASCII digit.
abbrev pub IsDigit : ℕ → Type 0
IsDigit c = (48 ≤ c) × (c ≤ 57)

digit_value-IsDigit : (c : ℕ) → IsDigit c → digit_value c ≡ some (c - 48)
unfolding digit_value
digit_value-IsDigit c h = ground arith

is_space-IsDigit : (c : ℕ) → IsDigit c → is_space c ≡ false
unfolding is_space
is_space-IsDigit c h = ground arith

All-append : (P : ℕ → Type 0) (xs ys : List ℕ) → All P xs → All P ys → All P (xs ++ ys)
All-append P [] ys h k = k
All-append P (x ∷ xs) ys h k = (h.0, All-append P xs ys h.1 k)

pub decimal-IsDigit : (f n : ℕ) → All IsDigit (decimal f n)
unfolding decimal
decimal-IsDigit zero n = tt
decimal-IsDigit (suc f) n = elim (Bool-cases (ltb n 10)) [
  | inl t ↦ rw t ((omega arith, ground arith), tt)
  | inr e ↦ rw e (
      All-append IsDigit (decimal f (n / 10)) ((48 + n % 10) ∷ []) (decimal-IsDigit f (n / 10))
        ((omega arith, omega arith), tt))
]

lstrip-digits : (cs : List ℕ) → All IsDigit cs → lstrip cs ≡ cs
unfolding lstrip
lstrip-digits [] h = refl
lstrip-digits (c ∷ cs) h = rw (is_space-IsDigit c h.0) refl

rstrip-digits : (cs : List ℕ) → All IsDigit cs → rstrip cs ≡ cs
unfolding rstrip
rstrip-digits [] h = refl
rstrip-digits (c ∷ []) h = rw (is_space-IsDigit c h.0) refl
rstrip-digits (c ∷ d ∷ cs) h = rw (rstrip-digits (d ∷ cs) h.1) refl

-- Reading a digit, before others and behind them.
int_digits-digit :
    (acc : ℕ) (after : Bool) (c : ℕ) (cs : List ℕ)
    → IsDigit c
    → int_digits acc after (c ∷ cs) ≡ int_digits (acc * 10 + (c - 48)) true cs
unfolding int_digits
int_digits-digit acc after c cs k = rw (digit_value-IsDigit c k, int_digits) refl

int_digits-end : (acc : ℕ) (after : Bool) {n : ℕ} → int_digits acc after [] ≡ some n → acc ≡ n
unfolding int_digits
int_digits-end acc true e = ground arith
int_digits-end acc false e = ground arith

int_digits-append :
    (acc : ℕ) (after : Bool) (cs : List ℕ) (c : ℕ) {n : ℕ}
    → All IsDigit cs
    → IsDigit c
    → int_digits acc after cs ≡ some n
    → int_digits acc after (cs ++ (c ∷ [])) ≡ some (n * 10 + (c - 48))
unfolding int_digits
int_digits-append acc after [] c {n} h k e =
    int_digits-digit acc after c [] k
    ∙ ap (λ m. some (m * 10 + (c - 48))) (int_digits-end acc after e)
int_digits-append acc after (d ∷ cs) c {n} h k e =
    int_digits-digit acc after d (cs ++ (c ∷ [])) h.0
    ∙ int_digits-append (acc * 10 + (d - 48)) true cs c h.1 k
        (sym (int_digits-digit acc after d cs h.0) ∙ e)

-- Enough fuel: more than the number.
int_digits-decimal : (f n : ℕ) → n < f → int_digits 0 false (decimal f n) ≡ some n
unfolding decimal int_digits
int_digits-decimal zero n h = absurd (omega arith)
int_digits-decimal (suc f) n h = elim (Bool-cases (ltb n 10)) [
  | inl t ↦
      rw t
        (int_digits-digit 0 false (48 + n) [] (omega arith, ground arith) ∙ ap some (omega arith))
  | inr e ↦ rw e (
      int_digits-append 0 false (decimal f (n / 10)) (48 + n % 10) (decimal-IsDigit f (n / 10))
        (omega arith, omega arith) (int_digits-decimal f (n / 10) (ground arith))
      ∙ ap some (omega arith))
]

signed-digits : (cs : List ℕ) → All IsDigit cs → signed cs ≡ counted (int_digits 0 false cs)
unfolding signed int_digits
signed-digits [] h = refl
signed-digits (c ∷ cs) h = ground arith

-- Reading what `str` printed gives the number back.
pub int-str : (n : ℕ) → int (str n) ≡ some (pos n)
unfolding int str
int-str n =
    let ds = decimal (suc n) n in
    let all = decimal-IsDigit (suc n) n in
    ap (λ cs. signed (rstrip cs)) (lstrip-digits ds all)
    ∙ ap signed (rstrip-digits ds all)
    ∙ signed-digits ds all
    ∙ ap counted (int_digits-decimal (suc n) n (omega arith))

-- A part without the separator.
abbrev pub Lacks : ℕ → List ℕ → Type 0
Lacks sep cs = All (λ c. (c == sep) ≡ false) cs

split-part :
    (sep : ℕ) (part rest : List ℕ)
    → Lacks sep part
    → split sep (part ++ (sep ∷ rest)) ≡ part ∷ split sep rest
unfolding split
split-part sep [] rest h = ground arith
split-part sep (c ∷ cs) rest h = rw (h.0, split-part sep cs rest h.1) refl

split-last : (sep : ℕ) (part : List ℕ) → Lacks sep part → split sep part ≡ part ∷ []
unfolding split
split-last sep [] h = refl
split-last sep (c ∷ cs) h = rw (h.0, split-last sep cs h.1) refl

-- Parts that lack the separator come back.
pub split-join :
    (sep : ℕ) (part : List ℕ) (parts : List (List ℕ))
    → Lacks sep part
    → All (Lacks sep) parts
    → split sep (join sep (part ∷ parts)) ≡ part ∷ parts
unfolding join
split-join sep part [] h k = split-last sep part h
split-join sep part (next ∷ parts) h k =
    split-part sep part (join sep (next ∷ parts)) h
    ∙ ap (λ ps. part ∷ ps) (split-join sep next parts k.0 k.1)

-- A printed number has digits only.
pub str-Lacks : (sep n : ℕ) → sep < 48 → Lacks sep (str n)
unfolding str
str-Lacks sep n h = lacking (decimal (suc n) n) (decimal-IsDigit (suc n) n)
  where
    lacking : (cs : List ℕ) → All IsDigit cs → Lacks sep cs
    lacking [] all = tt
    lacking (c ∷ cs) all = (ground (arith, all.0), lacking cs all.1)
