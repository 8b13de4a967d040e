-- ===== src/Samples/ParcelRuns.antt =====
-- The theorems on Nova Poshta, on a shop with one parcel on its way.
use skladbase.Prelude.{String, ◌≡◌, true, false, Option, none, some, List, [], ◌∷◌, All, arith}
use skladbase.Prelude.Int.{pos}
use skladbase.Models.{Reservation, ReservationStatus, Shop, ShopStatus, Db}
use skladbase.Session.{Session}
use skladbase.NovaPoshta.{Document, text_code, document, Answer, answers, batches}
use skladbase.NovaPoshta.Batches.{concat, FitsBatch, batches-concat}
use skladbase.Samples.Shelf.{cup, hold, shelf}

abbrev parcel : Reservation
parcel = record (hold 2 2) { status = ReservationStatus.shipped; ttn = some "59000000000001" }

abbrev sent : Db
sent = record shelf {
  variants = record cup { on_hand = pos 3; reserved = pos 1 } ∷ [];
  reservations = parcel ∷ hold 1 1 ∷ [];
}

abbrev pub cafe : Shop
cafe = record {
  id = 7;
  owner_tg_id = 900;
  name = "Cafe";
  slug = "cafe";
  logo_url = none;
  accent_color = "#2E7D32";
  public_catalog_enabled = false;
  website_url = none;
  api_key_encrypted = none;
  api_key_prefix = none;
  webhook_url = none;
  webhook_secret_encrypted = none;
  np_api_key_encrypted = some "secret";
  np_sender_city_ref = none;
  np_sender_city_name = none;
  np_sender_warehouse_ref = none;
  np_sender_warehouse_name = none;
  np_sender_phone = none;
  np_sender_name = none;
  status = ShopStatus.active;
  created_at = 1;
}

abbrev picked_up : Document
picked_up = record {
  number = some "59000000000001";
  status_code = text_code "9";
  status = some "received";
  recipient_full_name = none;
  city_recipient = none;
  warehouse_recipient = none;
}

abbrev opened : String → Option String
opened key = some key

abbrev replies : String → List String → Answer
replies key ttns = answers true (document picked_up ∷ [])

batches-concat_example :
    (batches 3 ("a" ∷ "b" ∷ []) ≡ batches 2 ("a" ∷ "b" ∷ []))
    × (concat (batches 3 ("a" ∷ "b" ∷ [])) ≡ "a" ∷ "b" ∷ [])
    × All FitsBatch (batches 3 ("a" ∷ "b" ∷ []))
batches-concat_example = batches-concat 3 ("a" ∷ "b" ∷ []) (omega arith)
