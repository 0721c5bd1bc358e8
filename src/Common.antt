-- ===== src/Common.antt =====
-- Functions of src/common.c that the other parts use.
pub mod Bytes
pub mod Random
pub mod Silence
