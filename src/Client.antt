-- ===== src/Client.antt =====
-- AAClient: the side that speaks to the phone, as a head unit does, and forwards to AAServer.
pub mod Outbox
pub mod Handlers
pub mod Setup
pub mod Start
pub mod Socket
pub mod Device
