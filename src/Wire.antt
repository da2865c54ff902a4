-- ===== src/Wire.antt =====
-- The numbers and bytes of the protocol: include/enums.h, src/utils.cpp (the byte helpers) and
-- Message.h. A byte is a number, and a vector of bytes a list.
pub mod Codes
pub mod Bytes
