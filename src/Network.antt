-- ===== src/Network.antt =====
-- network/: packets between nodes, and the buffers that they pass through.
pub mod Gob
pub mod Packet
pub mod Connection
