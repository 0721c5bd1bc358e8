-- ===== src/Rtp.antt =====
-- The RTP side, src/rtp.c.
pub mod TcpBuffer
pub mod Ntp
pub mod Ptp
pub mod Resend
pub mod Receivers
pub mod Pings
pub mod FlushMode
