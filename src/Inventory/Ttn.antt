-- ===== src/Inventory/Ttn.antt =====
-- app/services/inventory.py: `_TTN_RE` and `_validate_ttn`. A text is read by its code points.
use skladbase.Prelude.{
  ℕ, zero, suc, ◌+◌, String, Bool, true, false, ◌&&◌, ◌||◌, Option, none, some, List, [], ◌∷◌, ◌==◌,
  leb, has_text, not,
}
use skladbase.Prelude.Texts.{codes, digit_runs}
use skladbase.Models.{unprocessable_entity, inventory_error}
use skladbase.Session.{Session, Action, raise_if}

unfoldable pub in_runs : List ℕ → ℕ → Bool
in_runs [] c = false
in_runs (b ∷ bs) c = leb b c && leb c (b + 9) || in_runs bs c

unfoldable pub is_decimal : ℕ → Bool
unfolding in_runs
is_decimal = in_runs digit_runs

-- exactly `n` digits and the end: `\d{n}$` under `fullmatch`
unfoldable pub digits : ℕ → List ℕ → Bool
digits zero [] = true
digits zero (c ∷ cs) = false
digits (suc n) [] = false
digits (suc n) (c ∷ cs) = is_decimal c && digits n cs

-- `_TTN_RE.fullmatch`
unfoldable pub matches_ttn : List ℕ → Bool
matches_ttn (a ∷ b ∷ cs) = (a == b'2' && b == b'0' || a == b'5' && b == b'9') && digits 12 cs
matches_ttn _ = false

-- `_validate_ttn`: no text, or an empty one, is let through
unfoldable pub valid_ttn : Option String → Bool
valid_ttn none = true
valid_ttn (some t) = not (has_text (some t)) || matches_ttn (codes t)

abbrev pub validate_ttn : Option String → Action Session (Unit {0})
validate_ttn ttn = raise_if (not (valid_ttn ttn)) (inventory_error unprocessable_entity)
