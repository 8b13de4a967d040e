-- ===== src/Checkout.antt =====
-- What a checkout hands to a payment provider, and what the provider's message does:
-- app/billing/refs.py, app/billing/providers.py and app/api/payment_webhooks.py.
pub mod Refs
pub mod RoundTrip
pub mod Webhooks
pub mod Messages
pub mod Card
pub mod Crypto
pub mod Delivery
pub mod Activation
