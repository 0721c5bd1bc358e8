-- ===== src/Audio.antt =====
-- The audio back ends.
pub mod Pa
