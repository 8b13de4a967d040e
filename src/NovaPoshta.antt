-- ===== src/NovaPoshta.antt =====
-- app/services/novaposhta.py: the client of Nova Poshta. The remote service is an argument.
pub mod Batches
use skladbase.Prelude.{
  ℕ, zero, suc, String, Bool, true, false, not, Option, List, [], ◌∷◌, ◌++◌, ◌==◌, ◌||◌, length,
  if◌then◌else◌,
}
use skladbase.Prelude.Int.{ℤ, pos, negsuc}
use skladbase.Models.{novaposhta_error, server_error}
use skladbase.Session.{Result, ok, err}

-- A value of the JSON, as `int` takes it: a text, a number without its fraction (a truth value is
-- 0 or 1), a number too large for a float, which stands as an infinity, or what `int` refuses.
pub data Code : Type 0 where
  no_code infinite_code unfit_code : Code
  text_code : String → Code
  number_code : ℤ → Code

-- What the program reads of a tracked document. `number` is there if it is a text; the status and the
-- fields of the recipient are texts or missing, as the service documents them.
pub record Document : Type 0 where
  pub number : Option String
  pub status_code : Code
  pub status : Option String
  pub recipient_full_name : Option String
  pub city_recipient : Option String
  pub warehouse_recipient : Option String

-- An element of `data`.
pub data Row : Type 0 where
  no_object : Row
  document : Document → Row

-- What a request comes to: an HTTPError, a body that is no JSON, a body that is JSON of another shape
-- (no object, or a success whose `data` is nothing to go through), or `success` with `data`.
pub data Answer : Type 0 where
  unreachable unreadable misshapen : Answer
  answers : Bool → List Row → Answer

abbrev pub track_batch_size : ℕ
track_batch_size = 100

abbrev pub picked_codes : ℤ → Bool
picked_codes (pos n) = n == 9 || n == 10 || n == 11
picked_codes (negsuc n) = false

abbrev pub returned_codes : ℤ → Bool
returned_codes (pos n) = n == 102 || n == 103 || n == 108
returned_codes (negsuc n) = false

-- `ttns[:n]` and `ttns[n:]`
unfoldable pub take : ℕ → List String → List String
take zero xs = []
take (suc n) [] = []
take (suc n) (x ∷ xs) = x ∷ take n xs

unfoldable pub drop : ℕ → List String → List String
drop zero xs = xs
drop (suc n) [] = []
drop (suc n) (x ∷ xs) = drop n xs

-- The slices from 0, 100, 200 and on, by fuel.
unfoldable pub batches : ℕ → List String → List (List String)
unfolding take drop
batches zero ttns = []
batches (suc fuel) [] = []
batches (suc fuel) (t ∷ ttns) =
    take track_batch_size (t ∷ ttns) ∷ batches fuel (drop track_batch_size (t ∷ ttns))

-- `_call`, and `track`'s check of what came back
abbrev pub checked : Answer → Result (List Row)
checked unreachable = err novaposhta_error
checked unreadable = err server_error
checked misshapen = err server_error
checked (answers success documents) = if not success then err novaposhta_error else ok documents

abbrev pub extend : List Row → Result (List Row) → Result (List Row)
extend documents (ok rest) = ok (documents ++ rest)
extend documents (err e) = err e

-- What was answered so far, and what the batches behind it come to.
abbrev pub and_rest : Result (List Row) → Result (List Row) → Result (List Row)
and_rest (ok documents) rest = extend documents rest
and_rest (err e) rest = err e

unfoldable pub track_each : (List String → Answer) → List (List String) → Result (List Row)
track_each remote [] = ok []
track_each remote (batch ∷ rest) = and_rest (checked (remote batch)) (track_each remote rest)

unfoldable pub track : (String → List String → Answer) → String → List String → Result (List Row)
unfolding batches track_each
track remote api_key ttns = track_each (remote api_key) (batches (length ttns) ttns)
