-- ===== src/Rtsp.antt =====
-- The RTSP side, src/rtsp.c.
pub mod PcQueue
pub mod PlayLock
pub mod Message
pub mod ReadRequest
pub mod FlushRequests
pub mod SizedBuffer
pub mod Response
pub mod HandleFlush
pub mod Watchdog
