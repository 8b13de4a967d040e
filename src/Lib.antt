-- ===== src/Lib.antt =====
-- SkladBase keeps the stock of small shops: variants with stock on the shelf and stock set aside,
-- reservations of it, a journal of movements, orders from a shop's web site, and the subscription of
-- each shop. The development follows the services under app/.
--
-- State. A Python service works on an SQLAlchemy session. `Models` has the rows of app/models.py, and
-- two groups of tables: `Db` (variants, reservations, movements, orders) and `Billing` (plans,
-- subscriptions, payments, promo codes). Tables are lists, newest row first; a primary key is a number
-- of a sequence; a time is a number of seconds; money is a number of hundredths; `now` is an
-- argument, where the code calls `utcnow()`. Python's integers are `Prelude.Int.ℤ`. `Session` has what
-- is committed and what the transaction has written, and the type of a service call: a step that
-- returns or raises (InventoryError, OrderError, SubscriptionError, IntegrityError), with the state it
-- leaves in both cases. Calls on other tables that are all or nothing share `Session/Whole`.
--
-- Files and what they model:
--   Prelude, Prelude/Tests, Lists, Int, Tables, Selections, Updates: shared tests, integers, queries
--     and loops on tables. Prelude/Texts, Numerals: texts, and reading back what was printed.
--   Models/Stock, Plans, Shops, Errors: app/models.py and the services' exceptions.
--   Inventory/Tables, Ttn, Reservations, Stock: app/services/inventory.py, one definition for each
--     function, under its name.
--   Inventory/Effect: the contract of the service, independent of its code.
--   Inventory/Refines and below, Inventory/Calls: the code keeps the contract.
--   Inventory/Invariant and below, History, Lifecycle, Isolation, Accepts: what follows from it.
--   Orders: app/services/orders.py, and below it Steps, Atomic, Idempotency, Completion.
--   Subscriptions, Subscriptions/States, Promo: app/services/subscriptions.py, and below them
--     Payments, Redemptions, Steps, Machine.
--   Tasks/Renewals, Reservations, Tracking: app/tasks.py, and Tasks/Expiry, Dead, LowStock, Turns,
--     Charges, Grace, Parcels on it.
--   Checkout/Refs: app/billing/refs.py, and Checkout/RoundTrip on it.
--   Checkout/Webhooks: app/billing/providers.py and app/api/payment_webhooks.py, and
--     Checkout/Messages, Card, Crypto, Delivery, Activation on it.
--   NovaPoshta: `track` of app/services/novaposhta.py, and NovaPoshta/Batches on it.
--   Access, Access/ApiKey: app/deps.py, and Access/Rules on it.
--   Catalog, Catalog/Axes, Store, Variants: app/services/catalog.py, and Catalog/Frozen, Counting,
--     Soundness, Writes, Changes on it.
--   Finance: the sums of app/api/finance.py, and Finance/Revenue on it.
--   Security/RateLimit: app/security/rate_limit.py, and Security/Window on it.
--   Team: app/api/team.py, and Team/Seats, Guards, Duties on it. Team/Join, Bootstrap:
--     app/services/bootstrap.py, and Team/Admission, Entry on it.
--   Support: app/services/support_moderation.py, and Support/Mutes on it.
--   Samples and below: concrete tables and runs.
--
-- Concurrency. A stock operation locks the row it reads (`with_for_update`), so operations on one
-- variant follow one another, and a history of requests is a list. The one race that the code handles,
-- two orders with the same key, is in the model: `rival` is what another transaction has committed
-- between the look-up and the flush. So is the one of two requests that join or open a shop.
--
-- Loops are recursions on the list they run over. Two definitions take fuel: the digits of a number,
-- where the number and one more is enough, and the batches of `track`, where the number of texts is.
--
-- Not modelled: most HTTP endpoints, the bot, requests to outside services, notices to sites, cryptography, images, configuration and migrations. Messages to users and log lines
-- leave no trace in the tables. What a Python text's `strip().upper()` gives is an argument of
-- `redeem_promo`; the answer of the card provider, which may fail to come, and the text of a
-- charge's reference are arguments of the job that charges cards. The notice to the site after an order
-- (`_notify_stock_changed`) reads rows only, and is left out.
pub mod Prelude
pub mod Models
pub mod Session
pub mod Inventory
pub mod Orders
pub mod Subscriptions
pub mod Tasks
pub mod Access
pub mod Catalog
pub mod Security
pub mod Support
pub mod Checkout
pub mod NovaPoshta
pub mod Team
pub mod Finance
pub mod Samples
