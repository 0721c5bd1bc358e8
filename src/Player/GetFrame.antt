-- ===== src/Player/GetFrame.antt =====
-- `buffer_get_frame` of src/player.c, one module for each part of an iteration of its loop, and the
-- iteration itself. The timing functions of src/rtp.c come in through an interface.
pub mod Clock
pub mod Flush
pub mod Skip
pub mod LeadIn
pub mod Release
pub mod Iterate
