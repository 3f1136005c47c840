-- ===== src/Service.antt =====
-- internal/service and internal/seed: the transactions of the gateway.
pub mod Account
pub mod Sms
pub mod Listing
