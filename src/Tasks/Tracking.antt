-- ===== src/Tasks/Tracking.antt =====
-- app/tasks.py: `np_tracking`, which asks Nova Poshta for the parcels that are on their way. The
-- remote service and `decrypt` are arguments. A query's rows come in the order of the table.
use skladbase.Prelude.{
  ℕ, String, Bool, true, ◌&&◌, Option, none, some, List, [], ◌∷◌, ◌++◌, ◌==◌, has_text, is_some,
  str_eq, if◌then◌else◌, keep, map,
}
use skladbase.Prelude.Int.{ℤ, pos, ◌*ℤ◌}
use skladbase.Prelude.Tables.{select_one}
use skladbase.Prelude.Texts.{codes, int, append}
use skladbase.Models.{
  Error, inventory_error, order_error, subscription_error, catalog_error, http_error, server_error,
  novaposhta_error, integrity_error, Variant, Reservation, Shop, is_shipped,
}
use skladbase.Session.{
  Session, Action, Result, ok, err, pure, raise, query, commit_all, ◌>>=◌, ◌>>◌,
}
use skladbase.Inventory.{pick_up, not_picked_up, set_reservation}
use skladbase.Catalog.{Product}
use skladbase.NovaPoshta.{
  Document, Code, no_code, infinite_code, unfit_code, text_code, number_code, Row, no_object,
  document, Answer, track, picked_codes, returned_codes,
}

-- The name of a variant in a message: its product's, or "Варіант #" and the variant's key.
pub data Name : Type 0 where
  named : String → Name
  unnamed : ℕ → Name

-- What the owner of a shop is told of a parcel.
pub data Notice : Type 0 where
  picked : ℕ → Option String → Name → ℤ → Notice
  came_back : ℕ → Option String → Name → Notice

abbrev has_key : ℕ → Product → Bool
has_key id p = p.id == id

abbrev pub product_or : ℕ → Option Product → Name
product_or variant_id none = unnamed variant_id
product_or variant_id (some p) = named p.name

abbrev pub variant_name : List Product → ℕ → Option Variant → Name × Option Variant
variant_name products variant_id none = (unnamed variant_id, none)
variant_name products variant_id (some v) =
    (product_or variant_id (select_one (has_key v.product_id) products), some v)

-- `_np_display_name`
abbrev pub np_display_name : List Product → ℕ → Action Session (Name × Option Variant)
np_display_name products variant_id =
    query (λ d. variant_name products variant_id (select_one (λ v. v.id == variant_id) d.variants))

abbrev pub text_of : Option String → String
text_of none = ""
text_of (some t) = t

-- `_extract_np_recipient`
unfoldable pub extract_np_recipient : Document → Option String
unfolding append
extract_np_recipient r =
    if has_text r.recipient_full_name
      && (has_text r.city_recipient && has_text r.warehouse_recipient)
    then some (
        append (text_of r.recipient_full_name) (
          append " · "
            (append (text_of r.city_recipient) (append ", " (text_of r.warehouse_recipient)))))
    else none

-- the shipped reservations of a shop that have a number
unfoldable pub is_on_its_way : ℕ → Reservation → Bool
is_on_its_way shop_id r = r.shop_id == shop_id && (is_shipped r.status && is_some r.ttn)

-- `{r.ttn: r for r in reservations if r.ttn}`: a number that comes again replaces its row
unfoldable pub put :
    String → Reservation → List (String × Reservation) → List (String × Reservation)
put ttn r [] = (ttn, r) ∷ []
put ttn r (e ∷ es) = let rest = put ttn r es in if str_eq e.0 ttn then (e.0, r) ∷ es else e ∷ rest

unfoldable pub by_ttn : List Reservation → List (String × Reservation) → List (String × Reservation)
unfolding put
by_ttn [] found = found
by_ttn (r ∷ rs) found = by_ttn rs (if has_text r.ttn then put (text_of r.ttn) r found else found)

unfoldable pub lookup : String → List (String × Reservation) → Option Reservation
lookup ttn [] = none
lookup ttn (e ∷ es) = let rest = lookup ttn es in if str_eq e.0 ttn then some e.1 else rest

abbrev pub same_row : Reservation → Reservation → Bool
same_row r q = q.id == r.id

-- An assignment to an attribute of a row that the session has loaded.
abbrev pub assign : (Reservation → Reservation) → Option Reservation → Action Session (Unit {0})
assign f none = pure tt
assign f (some q) = set_reservation (f q)

abbrev pub amend : Reservation → (Reservation → Reservation) → Action Session (Unit {0})
amend r f = query (λ d. select_one (same_row r) d.reservations) >>= assign f

abbrev pub with_recipient : String → Reservation → Reservation
with_recipient recipient q = record q { np_recipient = some recipient }

abbrev pub with_status : Option String → Reservation → Reservation
with_status status q = record q { np_status = status }

abbrev pub note_recipient : Reservation → Option String → Action Session (Unit {0})
note_recipient r none = pure tt
note_recipient r (some recipient) =
    if has_text (some recipient) then amend r (with_recipient recipient) else pure tt

-- `except InventoryError: continue`
abbrev pub skipped : Error → Session → Result (List Notice) × Session
skipped (inventory_error c) t = (ok [], t)
skipped (order_error c) t = (err (order_error c), t)
skipped (subscription_error c) t = (err (subscription_error c), t)
skipped (catalog_error c) t = (err (catalog_error c), t)
skipped (http_error c) t = (err (http_error c), t)
skipped server_error t = (err server_error, t)
skipped novaposhta_error t = (err novaposhta_error, t)
skipped integrity_error t = (err integrity_error, t)

abbrev pub unless_raised : Result (List Notice) × Session → Result (List Notice) × Session
unless_raised (ok notices, t) = (ok notices, t)
unless_raised (err e, t) = skipped e t

abbrev pub skipping : Action Session (List Notice) → Action Session (List Notice)
skipping m s = unless_raised (m s)

abbrev pub amount_of : ℤ → Option Variant → ℤ
amount_of qty none = pos 0
amount_of qty (some v) = v.price *ℤ qty

abbrev pub picked_notice : Shop → Reservation → ℤ → Name × Option Variant → List Notice
picked_notice shop r qty (name, variant) =
    picked shop.owner_tg_id r.ttn name (amount_of qty variant) ∷ []

abbrev pub tell_picked :
    List Product → Shop → Reservation → Reservation → Action Session (List Notice)
tell_picked products shop r updated = do
  display ← np_display_name products updated.variant_id
  pure (picked_notice shop r updated.qty display)

abbrev pub tell_returned :
    List Product → Shop → Reservation → Reservation → Action Session (List Notice)
tell_returned products shop r updated = do
  display ← np_display_name products updated.variant_id
  pure (came_back shop.owner_tg_id r.ttn display.0 ∷ [])

abbrev pub by_code :
    ℕ → List Product → Shop → Document → Reservation → ℤ → Action Session (List Notice)
by_code now products shop result r code =
    if picked_codes code
    then pick_up now shop.id r.id true >>= tell_picked products shop r
    else if returned_codes code
    then not_picked_up now shop.id r.id "refused" none true >>= tell_returned products shop r
    else amend r (with_status result.status) >> commit_all >> pure []

abbrev pub with_code :
    ℕ
    → List Product
    → Shop
    → Document
    → Reservation
    → Result (Option ℤ)
    → Action Session (List Notice)
with_code now products shop result r (err e) = raise e
with_code now products shop result r (ok none) = pure []
with_code now products shop result r (ok (some code)) =
    note_recipient r (extract_np_recipient result)
    >> skipping (by_code now products shop result r code)

-- `int(result["StatusCode"])`; the KeyError, the TypeError and the ValueError are caught, the
-- OverflowError of an infinity is not
abbrev pub code_of : Code → Result (Option ℤ)
code_of no_code = ok none
code_of unfit_code = ok none
code_of infinite_code = err server_error
code_of (text_code t) = ok (int (codes t))
code_of (number_code n) = ok (some n)

abbrev pub track_row :
    ℕ → List Product → Shop → Document → Option Reservation → Action Session (List Notice)
track_row now products shop result none = pure []
track_row now products shop result (some r) =
    with_code now products shop result r (code_of result.status_code)

abbrev pub row_of : Option String → List (String × Reservation) → Option Reservation
row_of none rows = none
row_of (some number) rows = lookup number rows

-- The messages of a step, and then those of the steps behind it.
abbrev pub followed_by :
    Action Session (List Notice) → Action Session (List Notice) → Action Session (List Notice)
followed_by m k = m >>= λ first. k >>= λ rest. pure (first ++ rest)

-- `result.get("Number")` of what is no object is an AttributeError, which nothing catches.
abbrev pub track_element :
    ℕ → List Product → Shop → List (String × Reservation) → Row → Action Session (List Notice)
track_element now products shop rows no_object = raise server_error
track_element now products shop rows (document result) =
    track_row now products shop result (row_of result.number rows)

unfoldable pub track_results :
    ℕ → List Product → Shop → List (String × Reservation) → List Row → Action Session (List Notice)
unfolding lookup extract_np_recipient
track_results now products shop rows [] = pure []
track_results now products shop rows (result ∷ results) =
    followed_by (track_element now products shop rows result)
      (track_results now products shop rows results)

-- `except (CryptoError, NovaPoshtaError): continue`
abbrev pub unless_failed :
    ℕ
    → List Product
    → Shop
    → List (String × Reservation)
    → Result (List Row)
    → Action Session (List Notice)
unless_failed now products shop rows (ok results) = track_results now products shop rows results
unless_failed now products shop rows (err novaposhta_error) = pure []
unless_failed now products shop rows (err e) = raise e

abbrev pub key_of : String × Reservation → String
key_of e = e.0

module _ (decrypt : String → Option String) (remote : String → List String → Answer) where
  abbrev pub ask :
      ℕ → List Product → Shop → String → List (String × Reservation) → Action Session (List Notice)
  ask now products shop api_key [] = pure []
  ask now products shop api_key (e ∷ es) =
      unless_failed now products shop (e ∷ es) (track remote api_key (e.0 ∷ map key_of es))

  abbrev pub with_key : ℕ → List Product → Shop → Option String → Action Session (List Notice)
  with_key now products shop none = pure []
  with_key now products shop (some api_key) =
      query (λ d. by_ttn (keep (is_on_its_way shop.id) d.reservations) [])
      >>= ask now products shop api_key

  unfoldable pub track_shops : ℕ → List Product → List Shop → Action Session (List Notice)
  unfolding track_results is_on_its_way by_ttn track
  track_shops now products [] = pure []
  track_shops now products (shop ∷ shops) =
      followed_by (with_key now products shop (decrypt (text_of shop.np_api_key_encrypted)))
        (track_shops now products shops)

  abbrev pub has_np_key : Shop → Bool
  has_np_key shop = is_some shop.np_api_key_encrypted

  -- The messages that went out, as many as the number that the job returns.
  unfoldable pub np_tracking : ℕ → List Product → List Shop → Action Session (List Notice)
  unfolding track_shops
  np_tracking now products shops = track_shops now products (keep has_np_key shops)
