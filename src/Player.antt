-- ===== src/Player.antt =====
-- The player, src/player.c.
pub mod Buffer
pub mod Decode
pub mod PutPacket
pub mod GetFrame
pub mod Flow
pub mod Sample
pub mod Stuff
pub mod Samples
mod Tests
