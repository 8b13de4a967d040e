-- ===== src/Tasks/Parcels/Answers.antt =====
-- app/services/novaposhta.py: what `track` comes to, where the service answers as it documents.
use skladbase.Prelude.{
  ◌≡◌, refl, inl, inr, ◌⊎◌, String, Bool, true, false, List, [], ◌∷◌, ◌++◌, arith, All, All-append,
}
use skladbase.Models.{novaposhta_error}
use skladbase.Session.{Result, ok, err}
use skladbase.NovaPoshta.{
  no_code, infinite_code, unfit_code, text_code, number_code, Row, no_object, document, Answer,
  unreachable, unreadable, misshapen, answers, track_each, extend, and_rest, checked,
}

-- An element that the cycle can go through: an object, whose code is no infinity.
abbrev pub fits : Row → Bool
fits no_object = false
fits (document d) = elim d.status_code [
  | no_code ↦ true
  | infinite_code ↦ false
  | unfit_code ↦ true
  | text_code t ↦ true
  | number_code n ↦ true
]

abbrev pub Fits : Row → Type 0
Fits row = fits row ≡ true

-- No answer at all, or a body of the documented shape.
abbrev pub Reads : Answer → Type 0
Reads unreachable = Unit
Reads unreadable = true ≡ false
Reads misshapen = true ≡ false
Reads (answers success rows) = All Fits rows

-- What `track` comes to: documents, or the NovaPoshtaError that the cycle catches.
abbrev pub IsAnswer : Result (List Row) → Type 0
IsAnswer r =
    ((results : List Row) × (r ≡ ok results) × All Fits results) ⊎ (r ≡ err novaposhta_error)

extend-IsAnswer :
    (documents : List Row) (r : Result (List Row))
    → All Fits documents
    → IsAnswer r
    → IsAnswer (extend documents r)
extend-IsAnswer documents r k (inl (results, e, fit)) =
    inl (documents ++ results, rw e refl, All-append Fits documents results k fit)
extend-IsAnswer documents r k (inr e) = inr (rw e refl)

and_rest-IsAnswer :
    (r rest : Result (List Row)) → IsAnswer r → IsAnswer rest → IsAnswer (and_rest r rest)
and_rest-IsAnswer r rest (inl (documents, e, fit)) k = rw e (extend-IsAnswer documents rest fit k)
and_rest-IsAnswer r rest (inr e) k = rw e (inr refl)

checked-IsAnswer : (a : Answer) → Reads a → IsAnswer (checked a)
checked-IsAnswer unreachable h = inr refl
checked-IsAnswer unreadable h = absurd (ground (arith, h))
checked-IsAnswer misshapen h = absurd (ground (arith, h))
checked-IsAnswer (answers true documents) h = inl (documents, refl, h)
checked-IsAnswer (answers false documents) h = inr refl

pub track_each-IsAnswer :
    (remote : String → List String → Answer)
    → ((key : String) (ttns : List String) → Reads (remote key ttns))
    → (key : String) (bs : List (List String)) → IsAnswer (track_each (remote key) bs)
unfolding track_each
track_each-IsAnswer remote readable key [] = inl ([], refl, tt)
track_each-IsAnswer remote readable key (b ∷ bs) =
    and_rest-IsAnswer (checked (remote key b)) (track_each (remote key) bs)
      (checked-IsAnswer (remote key b) (readable key b))
      (track_each-IsAnswer remote readable key bs)
