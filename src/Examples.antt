-- ===== src/Examples.antt =====
-- Runs of the definitions on concrete inputs, and the theorems at inputs that meet their hypotheses.
pub mod Loopback
pub mod Wire
pub mod Transport
pub mod Server
pub mod Clients
pub mod Handshake
pub mod Discovery
pub mod Opening
pub mod GetEvents
pub mod Descriptors
pub mod Device
pub mod Switching
pub mod Writing
pub mod Registered
pub mod Threads
pub mod Client
pub mod Usb
pub mod Ends
