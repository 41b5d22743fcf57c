-- ===== src/Gateway.antt =====
-- src/gateway/: the socket gateway.
pub mod Reservations
pub mod Events
