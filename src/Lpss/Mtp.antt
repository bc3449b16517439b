-- ===== src/Lpss/Mtp.antt =====
-- modules/lpss/src/node_rmtp.cpp: the message transfer protocol (MTP), which splits a message into
-- datagrams and reassembles it at the reader.
pub mod Header
pub mod Capacity
pub mod Send
pub mod Assembly
pub mod Endpoints
