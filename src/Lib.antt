-- ===== src/Lib.antt =====
-- libmezia: the transport and audio core of a small real-time media library in C.
--
-- Packets come from the network as datagrams. `src/transport/packet.c` parses an RTP header, the
-- payload type decides whether audio, video or control handles the packet. Audio packets go into the
-- jitter buffer (`src/audio/jitter.c`) of the audio context (`src/audio/audio.c`), which a clock
-- empties every 20 ms into the Opus decoder; video packets are put together to NAL units
-- (`src/video/video.c`). The receiver counts what it saw and sends loss reports back
-- (`src/transport/audio_feedback.c`); the sender feeds them to the bitrate controller
-- (`src/audio/bitrate_controller.c`), which sets up the encoder. RTCP packets are read and written by
-- `src/rtcp/rtcp.c`. A context of `src/media/media.c` puts one peer (`src/p2p/p2p.c`, a UDP socket with
-- a worker thread) and an audio and a video context together. `src/audio/opus.c` wraps libopus for the
-- audio context; the device side keeps samples in the ring of `platform/common/audio_ring.h`, and splits
-- the video encoder's output by `platform/common/nal_split.h`. A session (`src/session/session.c`) writes
-- an offer, takes two descriptions in (`src/sdp/sdp.c`), and makes a context from what both have.
--
-- Files:
--   Prelude     C conditions, arrays as lists, words of 8 to 64 bits, facts on bits
--   Types       `include/mezia/types.h`: status codes, `mezon_packet_t`, `mezon_stats_t`
--   Wire        the big-endian accessors that three files of the source each declare
--   Rtp         `mezon_rtp_serialize`, `mezon_rtp_parse`, `mezon_seq_before`
--   Feedback    `mezon_audio_feedback_serialize` and `_parse`
--   Bitrate     `mezon_bitrate_controller_init` and `_update`
--   Jitter      `mezon_audio_jitter_*`; `store`, `place` and `insert_*` are the parts of `_insert`
--   Rtcp        `mezia_rtcp_write_*` and `mezia_rtcp_parse`
--   Video       `mezon_video_*`: Video/Packetizer the sender, Video/Receiver the receiver
--   Opus        the codec as the audio context sees it: an interface, for any implementation;
--               Opus/Wrapper `mezon_opus_*` is one, over the calls of libopus
--   Audio       `mezon_audio_*`: Audio/Receiver packets and reports, Audio/Playback the codec's side
--   Ring        `mezia_audio_ring_*`, and in Ring/Refine the queue that it stands for
--   Nal         `mezia_split_annexb` and `mezia_rtp_video_timestamp`
--   Peer        `mezon_peer_*`, in the POSIX form; Peer/Life its invariant, Peer/Wire two of them
--   Media       `mezia_*`: Media/Sender the sending side, Media/Receiver `media_packet` and the
--               counters; Media/Valid, Media/Sends, Media/Pictures and Media/Life the invariant;
--               Media/Wire, Media/Frames and Media/Reports what one context sends to another;
--               Media/Stops a stop by the worker; Media/Cramped and Media/Starved
--               a context with too small an MTU
--   Text        the C library's functions on text: Text/Scan `sscanf`, Text/Print `snprintf`;
--               Text/Span and Text/Numbers what they make of words and numbers
--   Sdp         the types of `include/mezia/sdp.h`; Sdp/Parser `mezia_sdp_parse`, with the attribute
--               lines in Sdp/Parser/Attributes; Sdp/Writer `mezia_sdp_write_offer`; Sdp/Lines the
--               line loop, Sdp/Bounds, Sdp/Safe and Sdp/Room the arrays, Sdp/Offer what an offer says
--   Session     `mezia_session_*`: Session/Start the start, Session/Traffic what is passed on;
--               Session/Valid, Session/Started and Session/Life the invariant, Session/Exchange and
--               Session/Agreed what is negotiated; Session/Refused a text that does not parse
--   Tests       runs at fixed inputs, and each theorem applied to one
--
-- Conventions. A word of w bits is a natural number, and each operation of the source that can pass
-- the word's end is followed by `% 2 ^ w` (`u8`, `u16`, `u32`, `u64`; `sub16` and the like for
-- differences); `size_t` has 64 bits. A pointer parameter is an Option, `none` for null, but for
-- the object that a function works on (context, buffer, controller, counters), and for the packets
-- and the count of a packetizer, which are taken as not null. A buffer is the list of its bytes;
-- a write past its end is dropped, so a theorem that reads back what was written also shows that
-- the write was inside. A callback is a value that the operation returns, `none` where it is not
-- called. The result of an allocation, the time and the codec's answers are arguments.
--
-- The answers of the operating system are arguments too: `Network` for the calls of a start, `Sending`
-- for `sendto`, `Incoming` for `recvfrom`. A round of the worker is one step (`receive_round`, and with
-- the callback `media_round`), like each operation; the loop around it reads only the running flag.
-- libopus is the parameter `LibOpus`; what its documentation says of the bitrate and the loss is
-- `Documented`, and that a loss of up to 100 percent is taken is `AcceptsLoss`; both are hypotheses
-- of the theorems that need them.
--
-- A C string is the list of its characters without the 0 at its end, and an array of characters the
-- text that it holds. `%u` is scanned as in glibc, where `strtoul` stops at its largest value; the C
-- standard leaves that open. In the session the pointers of the stored configuration are copies of the
-- texts that they point at.
--
-- Bounds and fuel. `count_bits` has 64 rounds, one for each bit of the mask; the report that is
-- taken depends on it. `parse_nack_fci` has as many rounds as the payload has bytes, where each
-- takes four. `find_small` and `fill_fragments` run once for each packet, as the loops do.
-- `parse_lines` has one round for each character, and each line takes one at least. `decimal` has
-- ten rounds, for ten digits. `split_loop` has one round for each byte, and each round moves on by one at least.
--
-- Not modelled: the locks of the audio context and of the peer, so each operation is one step; the
-- destructors, which stop and free; the Windows branches of the peer and its `setsockopt` calls, whose
-- answers the code does not look at; the clock, which belongs to the operating system; the device code under `platform`, but for the headers under
-- `platform/common`.
-- `sizeof(mezon_packet_t)` is taken as 56, with pointers of 64 bits. `recvfrom` brings at most the 1500
-- bytes of its array.
pub mod Prelude
pub mod Types
pub mod Wire
pub mod Rtp
pub mod Feedback
pub mod Bitrate
pub mod Jitter
pub mod Rtcp
pub mod Video
pub mod Opus
pub mod Audio
pub mod Nal
pub mod Ring
pub mod Peer
pub mod Media
pub mod Text
pub mod Sdp
pub mod Session
pub mod Tests
