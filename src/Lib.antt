-- ===== src/Lib.antt =====
-- Shairport Sync, an AirPlay audio receiver: the parts of it that move packets, bytes and requests,
-- with the theorems that make them correct.
--
-- An RTSP connection (src/rtsp.c) is a thread that reads requests, takes the play lock and starts the
-- player. Packets of audio arrive by RTP (src/rtp.c), over UDP one at a time or over TCP through a
-- ring that a reader thread fills. `player_put_packet` (src/player.c) puts each packet into the slot
-- of its sequence number and asks for missing ones; `buffer_get_frame` takes them out when they are
-- due by the clock, which goes by an anchor from NTP or PTP. A metadata queue carries what is told to
-- the outside.
--
-- The files, and what they model:
--   Prelude, Window: the shared names, machine words, integers, and circular windows of arrays.
--   Rtp/TcpBuffer: `buffered_tcp_desc`, `buffered_read`, `buffered_tcp_reader`, `lread_sized_block`
--     of src/rtp.c; Threads has the two threads as a step relation, ReadBlock the reading of blocks.
--   Rtp/Ntp, Rtp/Ptp: the anchors of src/rtp.c, `frame_to_ntp_local_time`, `local_ntp_time_to_frame`,
--     `set_ptp_anchor_info`, `get_ptp_anchor_local_time_info` and the conversions.
--   Rtp/Resend: `rtp_request_resend` of src/rtp.c.
--   Rtp/FlushMode: `handle_flushbuffered` of src/rtsp.c, and the part of `rtp_buffered_audio_processor`
--     of src/rtp.c that acts on its requests.
--   Rtp/Pings: the timing replies of `rtp_timing_receiver` of src/rtp.c.
--   Rtp/Receivers: `rtp_audio_receiver` and `rtp_control_receiver` of src/rtp.c, with the sync packets
--     in Sync, and Common/Bytes: `nctohs` and `nctohl` of src/common.c.
--   Timing: `frame_to_local_time` and `local_time_to_frame` of src/rtp.c, as the player's clock.
--   Rtsp/PcQueue: the metadata queue of src/rtsp.c, with its contract in Fifo.
--   Rtsp/PlayLock, Rtsp/Watchdog: `get_play_lock`, `release_play_lock` and
--     `player_watchdog_thread_code` of src/rtsp.c.
--   Rtsp/Message, Rtsp/ReadRequest, Rtsp/Response: `nextline`, `msg_handle_line`,
--     `rtsp_read_request` and `msg_write_response` of src/rtsp.c.
--   Rtsp/HandleFlush: `handle_flush` of src/rtsp.c and `uatoi` of src/common.c.
--   Rtsp/FlushRequests, Rtsp/SizedBuffer: `add_flush_request`, `buf_add`, `buf_drain`, `buf_remove`
--     of src/rtsp.c.
--   ActivityMonitor: the state machine of src/activity_monitor.c.
--   Common/Random, Common/Silence: `ranval`, `raninit`, `r64i` and `generate_zero_frames` of
--     src/common.c, and `rand_in_range` of src/player.c.
--   Audio/Pa: `play`, `flush` and `stream_write_cb` of src/audio_pa.c.
--   Dacp: `dacp_tlv_crawl`, `dacp_get_client_volume`, `dacp_get_speaker_list`, `dacp_get_volume` and
--     `dacp_set_volume` of src/dacp.c.
--   Player/Buffer, Player/Decode: `abuf_t`, the buffer's part of `rtsp_conn_info` (src/player.h), and
--     the small functions and the decoding of src/player.c.
--   Player/PutPacket: `player_put_packet`, with the resend checks in Scan.
--   Player/GetFrame: `buffer_get_frame`, in the order of its loop: Flush, Skip, LeadIn, Release, and
--     in Iterate the loop itself. Flow follows a packet through both.
--   Player/Sample, Player/Stuff: `process_sample`, `mean_32` and `stuff_buffer_basic_32` of
--     src/player.c.
--
-- A function takes the state and gives it back; an operation under a mutex is one step. Bytes and
-- words are natural numbers with the wrap-around written out; a pointer into an array is an offset,
-- and an array a function of the index. Time, the clock, the output device and what other threads do
-- in between are arguments, so theorems hold for all of them.
--
-- Loops without a bound in the source are recursions on fuel. The loop of the resend checks has fuel
-- for 65537 rounds, more than there are sequence numbers; the flush loop one round more than there
-- are packets; the lines of a header one more than there are bytes; a block one for each byte. The
-- PulseAudio callback has one round more than bytes, and a loop over a reply one more than entries. A
-- number is printed with fuel for ten digits, as many as an `int` has.
--
-- Not modelled: logging, memory that cannot be had, floating-point code (the synchronisation of the
-- player, stuffing by a resampler, volume, the clock drift), the receivers of AirPlay 2 and the
-- other handlers around the functions above, and the code of other projects (the ALAC decoders and
-- AES, which are parameters).
pub mod Prelude
pub mod Window
pub mod Common
pub mod Audio
pub mod Dacp
pub mod Rtsp
pub mod Rtp
pub mod Player
pub mod ActivityMonitor
pub mod Timing
