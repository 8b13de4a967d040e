-- ===== src/Models/Shops.antt =====
-- app/models.py: a shop.
use skladbase.Prelude.{ℕ, String, Bool, Option}

pub data ShopStatus : Type 0 where
  active suspended : ShopStatus

pub record Shop : Type 0 where
  pub id : ℕ
  pub owner_tg_id : ℕ
  pub name : String
  pub slug : String
  pub logo_url : Option String
  pub accent_color : String
  pub public_catalog_enabled : Bool
  pub website_url : Option String
  pub api_key_encrypted : Option String
  pub api_key_prefix : Option String
  pub webhook_url : Option String
  pub webhook_secret_encrypted : Option String
  pub np_api_key_encrypted : Option String
  pub np_sender_city_ref : Option String
  pub np_sender_city_name : Option String
  pub np_sender_warehouse_ref : Option String
  pub np_sender_warehouse_name : Option String
  pub np_sender_phone : Option String
  pub np_sender_name : Option String
  pub status : ShopStatus
  pub created_at : ℕ
