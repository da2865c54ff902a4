-- ===== src/Server.antt =====
-- AAServer: the side that speaks to the car's head unit and serves local clients over a socket.
pub mod Outbox
pub mod Handlers
pub mod Control
pub mod Opening
pub mod Pump
pub mod Sockets
pub mod Events
pub mod Threads
pub mod Descriptors
pub mod Switching
pub mod Usb
pub mod Log
pub mod Event
