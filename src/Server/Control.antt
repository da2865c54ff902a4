-- ===== src/Server/Control.antt =====
-- AAServer/src/AaCommunicator.cpp: the communicator's state and what it does with a message from
-- the head unit. The log to a pcap file and to the console is left out.
pub mod Signals
pub mod Discovery
pub mod Shake
pub mod Dispatch
pub mod Numbers
