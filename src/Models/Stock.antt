-- ===== src/Models/Stock.antt =====
-- app/models.py: the enums and the tables of stock, reservations, movements and orders. A price is
-- `Numeric(12, 2)`, an integer number of hundredths. A time is a number of seconds. Keys are
-- numbers from a sequence.
use skladbase.Prelude.{ℕ, String, Bool, true, false, Option, List}
use skladbase.Prelude.Int.{ℤ, ◌-ℤ◌}

pub data ReservationStatus : Type 0 where
  active released fulfilled shipped : ReservationStatus

pub data ReservationSource : Type 0 where
  manual website app : ReservationSource

pub data OrderSource : Type 0 where
  website app manual : OrderSource

pub data OrderStatus : Type 0 where
  pending confirmed fulfilled canceled : OrderStatus

pub data MovementType : Type 0 where
  sale restock reserve release adjustment ret : MovementType

abbrev pub is_active : ReservationStatus → Bool
is_active ReservationStatus.active = true
is_active _ = false

abbrev pub is_shipped : ReservationStatus → Bool
is_shipped ReservationStatus.shipped = true
is_shipped _ = false

abbrev pub is_pending : OrderStatus → Bool
is_pending OrderStatus.pending = true
is_pending _ = false

pub record Variant : Type 0 where
  pub id : ℕ
  pub shop_id : ℕ
  pub product_id : ℕ
  pub sku : Option String
  pub axis_values : List (String × String)
  pub photo_url : Option String
  pub price : ℤ
  pub on_hand : ℤ
  pub reserved : ℤ
  pub low_stock_threshold : ℤ
  pub low_stock_notified_at : Option ℕ
  pub expires_on : Option ℕ

abbrev pub available : Variant → ℤ
available v = v.on_hand -ℤ v.reserved

pub record Reservation : Type 0 where
  pub id : ℕ
  pub shop_id : ℕ
  pub variant_id : ℕ
  pub order_id : Option ℕ
  pub qty : ℤ
  pub reason : Option String
  pub customer_note : Option String
  pub source : ReservationSource
  pub status : ReservationStatus
  pub expires_at : Option ℕ
  pub created_at : ℕ
  pub released_at : Option ℕ
  pub ttn : Option String
  pub shipped_at : Option ℕ
  pub np_status : Option String
  pub np_recipient : Option String

pub record StockMovement : Type 0 where
  pub shop_id : ℕ
  pub variant_id : ℕ
  pub order_id : Option ℕ
  pub reservation_id : Option ℕ
  pub type_of : MovementType
  pub delta : ℤ
  pub reason : Option String
  pub comment : Option String
  pub price_at : Option ℤ
  pub created_at : ℕ

pub record Order : Type 0 where
  pub id : ℕ
  pub shop_id : ℕ
  pub source : OrderSource
  pub status : OrderStatus
  pub external_ref : Option String
  pub idempotency_key : Option String
  pub customer_name : Option String
  pub customer_contact : Option String
  pub total_price : ℤ
  pub created_at : ℕ

pub record OrderItem : Type 0 where
  pub order_id : ℕ
  pub variant_id : ℕ
  pub qty : ℤ
  pub price_at_order : ℤ

-- The rows of these tables, newest first, and the sequences that number reservations and orders.
pub record Db : Type 0 where
  pub variants : List Variant
  pub reservations : List Reservation
  pub movements : List StockMovement
  pub orders : List Order
  pub order_items : List OrderItem
  pub next_reservation : ℕ
  pub next_order : ℕ
