-- ===== src/Models/Errors.antt =====
-- The exceptions that the services raise, each with the HTTP status that its `status_code` holds.
-- The texts (`detail`) are for people and are left out.

-- the members of `http.HTTPStatus` that the program uses
pub data HttpStatus : Type 0 where
  bad_request unauthorized payment_required forbidden not_found conflict gone : HttpStatus
  unprocessable_entity too_many_requests : HttpStatus

pub data Error : Type 0 where
  inventory_error order_error subscription_error catalog_error : HttpStatus → Error
  -- FastAPI's HTTPException
  http_error : HttpStatus → Error
  -- `NovaPoshtaError`
  novaposhta_error : Error
  -- any other exception, which the server answers with 500
  server_error : Error
  -- a unique constraint of the database that a flush meets
  integrity_error : Error
