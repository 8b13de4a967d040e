-- ===== src/NovaPoshta/Batches.antt =====
-- app/services/novaposhta.py: the batches of `track`.
use skladbase.Prelude.{
  ℕ, zero, suc, ◌≡◌, ◌≤◌, refl, ap, ◌∙◌, String, List, [], ◌∷◌, ◌++◌, arith, All, length,
}
use skladbase.NovaPoshta.{take, drop, batches, track_batch_size}

take-drop : (n : ℕ) (xs : List String) → take n xs ++ drop n xs ≡ xs
unfolding take drop
take-drop zero xs = refl
take-drop (suc n) [] = refl
take-drop (suc n) (x ∷ xs) = ap (λ ys. x ∷ ys) (take-drop n xs)

length-take : (n : ℕ) (xs : List String) → length (take n xs) ≤ n
unfolding take
length-take zero xs = omega arith
length-take (suc n) [] = omega arith
length-take (suc n) (x ∷ xs) = omega (arith, length-take n xs)

length-drop : (n : ℕ) (xs : List String) → length (drop n xs) ≤ length xs
unfolding drop
length-drop zero xs = omega arith
length-drop (suc n) [] = omega arith
length-drop (suc n) (x ∷ xs) = omega (arith, length-drop n xs)

drop_fewer :
    (t : String) (ttns : List String) → length (drop track_batch_size (t ∷ ttns)) ≤ length ttns
unfolding drop
drop_fewer t ttns = length-drop 99 ttns

take_some : (t : String) (ttns : List String) → 1 ≤ length (take track_batch_size (t ∷ ttns))
unfolding take
take_some t ttns = omega arith

-- the texts of all batches, one batch after another
unfoldable pub concat : List (List String) → List String
concat [] = []
concat (xs ∷ xss) = xs ++ concat xss

-- A batch has something in it, and no more than the remote service takes.
abbrev pub FitsBatch : List String → Type 0
FitsBatch batch = (1 ≤ length batch) × (length batch ≤ track_batch_size)

batches_enough :
    (f g : ℕ) (ttns : List String)
    → length ttns ≤ f
    → length ttns ≤ g
    → batches f ttns ≡ batches g ttns
unfolding batches
batches_enough zero zero ttns h k = refl
batches_enough zero (suc g) [] h k = refl
batches_enough (suc f) zero [] h k = refl
batches_enough (suc f) (suc g) [] h k = refl
batches_enough zero (suc g) (t ∷ ttns) h k = absurd (omega arith)
batches_enough (suc f) zero (t ∷ ttns) h k = absurd (omega arith)
batches_enough (suc f) (suc g) (t ∷ ttns) h k =
    ap (λ bs. take track_batch_size (t ∷ ttns) ∷ bs)
      (batches_enough f g (drop track_batch_size (t ∷ ttns)) (less h) (less k))
  where
    less : {n : ℕ} → length (t ∷ ttns) ≤ suc n → length (drop track_batch_size (t ∷ ttns)) ≤ n
    less e = omega (arith, drop_fewer t ttns)

batches-whole :
    (fuel : ℕ) (ttns : List String)
    → length ttns ≤ fuel
    → (concat (batches fuel ttns) ≡ ttns) × All FitsBatch (batches fuel ttns)
unfolding batches concat
batches-whole zero [] h = (refl, tt)
batches-whole (suc fuel) [] h = (refl, tt)
batches-whole zero (t ∷ ttns) h = absurd (omega arith)
batches-whole (suc fuel) (t ∷ ttns) h =
    let first = take track_batch_size (t ∷ ttns) in
    let rest = drop track_batch_size (t ∷ ttns) in
    let (whole, fit) = batches-whole fuel rest (omega (arith, drop_fewer t ttns)) in
    (
      ap (λ ys. first ++ ys) whole ∙ take-drop track_batch_size (t ∷ ttns),
      ((take_some t ttns, length-take track_batch_size (t ∷ ttns)), fit),
    )

-- With fuel for one turn for each text, or more, the batches are those of `track`, hold all texts in
-- their order, and have between one and a hundred texts each.
pub batches-concat :
    (fuel : ℕ) (ttns : List String)
    → length ttns ≤ fuel
    → (batches fuel ttns ≡ batches (length ttns) ttns)
      × (concat (batches fuel ttns) ≡ ttns)
      × All FitsBatch (batches fuel ttns)
batches-concat fuel ttns h =
    let (whole, fit) = batches-whole fuel ttns h in
    (batches_enough fuel (length ttns) ttns h (omega arith), whole, fit)
