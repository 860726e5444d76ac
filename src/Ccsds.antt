-- ===== src/Ccsds.antt =====
-- xtce_sim/ccsds.py: packets, the link's own packets, and frames.
pub mod Header
pub mod Packets
pub mod Uplink
pub mod Counter
pub mod Frame
