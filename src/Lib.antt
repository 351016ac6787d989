-- ===== src/Lib.antt =====
-- Ferricast: screen casting to Chromecast, AirPlay and HLS receivers.
--
-- The program captures a screen, encodes it to H.264 or H.265 and AAC, packs the frames into
-- MPEG-TS segments, and serves these as an HLS playlist to a receiver; a receiver of its own pulls
-- such a playlist and demuxes the segments. A bitrate controller follows the delivery times. The
-- AirPlay sender pairs with its device through messages in TLV coding. These modules model the
-- logic of this pipeline; bytes are numbers below 256 in lists, machine integers are natural
-- numbers with their wrap-around or saturation written out, and a clock is an argument.
--
-- Modules and sources:
--   Base                 shared names, Boolean tests, lists, machine words, bit operations
--   Adaptive             crates/core/src/adaptive.rs, AdaptiveBitrateState: record_pressure,
--                        drop_to_floor, observe_link_capacity_kbps. Atomic cells are record fields:
--                        there is one updater. A clamp with crossed bounds panics (Base.Words.Run).
--   Tlv                  crates/airplay/src/tlv.rs, encode and decode. The HashMap is an association
--                        list; the loop of decode has the input's length as fuel.
--   Frame                crates/core/src/frame.rs and protocol.rs, the frame types
--   MpegTs               crates/muxer/src/mpeg_ts.rs. Psi has the tables and their CRC, Timestamp and
--                        Pes the headers, Packet the packetisation (write_pes_to_ts, with the PES
--                        length as fuel), Muxer the state MpegTs with add_frame, add_audio_frame,
--                        config, drain and start_segment, whose assertion is left to the caller
--   TsDemux              crates/hls/src/puller/ts.rs, TsDemuxer: push, flush, the tables and the
--                        assembly of PES packets. Loops have the length of their input as fuel.
--   Text                 what the code uses of Rust's str, on bytes: splitting, trimming, decimals
--   M3u8                 crates/m3u8/src/lib.rs, the writer of media playlists, over an interface of
--                        the f32 operations it uses (Floats). M3u8.Reader is a reader of playlists as
--                        RFC 8216 has it, which is not code of the repository.
--   Hls.Ring             crates/hls/src/ring.rs, SegmentRing. Hls.Ring.Log is the abstract log that
--                        the ring keeps the end of. The timed wait for a first segment is left out.
--   Hls.Playlist         ring.rs, SegmentRing::build_playlist. Hls.Playlist.Target has what it relies
--                        on of f32 (FloatLaws) and of the segments' durations (Sound).
--   Hls.Http             crates/hls/src/http.rs: Http has the requests, Response the answers as bytes,
--                        Calendar the Date header, Handler one turn of the connection's loop from a
--                        request to its answer. The states that the ring goes through while a
--                        blocking reload waits are a list. Paths, Ranges, Reload, Limits, Served and
--                        Composed have the proofs.
--   Hls.Segmenter        crates/hls/src/segmenter.rs, run_from_frames with push_frame and
--                        push_audio_frame, one event at a time over MpegTs.Muxer and Hls.Ring. The
--                        clock is read once for an event. Prefix, Modes and Step compare the runs with
--                        and without parts.
--   Hls.Stats            crates/hls/src/stats.rs, SessionStats
--   Cast                 crates/chromecast/src/castv2.rs and wire.rs: encode_length_prefixed,
--                        decode_length_prefixed, recv, and in Errors the detailed error codes. The
--                        protobuf coding is a parameter, and what the connection's reads will give is
--                        a list, on which recv recurses.
--   Nal                  crates/encoder/src/h264/bitstream.rs (Writer, Escape) and headers.rs (Avc),
--                        crates/encoder/src/h265/bitstream.rs (Hevc) and headers.rs (HevcSets): bit
--                        writers, parameter sets, emulation prevention, framing. HevcBits
--                        and HevcPayload have what the HEVC writer writes, AvcBits and AvcCodes the
--                        same for H.264, and ExpGolomb reads the codes back. Syntax, HevcSyntax,
--                        HevcSequence and AvcSyntax are a decoder's reader of the parameter sets after
--                        the standards, which is not code of the repository; HevcContents and
--                        AvcContents say what the sets shall tell; HevcCoded, HevcParameters,
--                        AvcPayload, AvcElements and AvcParameters join the two sides.
--
-- How they interact: Frame passes from the encoder to MpegTs; what MpegTs drains is what TsDemux
-- reads at the other end (TsDemux.RoundTrip joins the two) and what Hls.Segmenter pushes into
-- Hls.Ring. Hls.Playlist writes the ring's contents with M3u8, and Hls.Http serves the playlist and
-- the segments of the ring (Hls.Http.Composed joins them). Nal builds the parameter sets that MpegTs
-- puts before key frames.
--
-- Not modelled: capture, codec and graphics bindings, sockets and asynchronous loops, pairing
-- cryptography, the session manager, the payloads and builders of the CastV2 messages and their
-- sending, RTSP, the segmenter's run for local playback, and of the HTTP server the loop over a connection's requests with its timeouts and
-- logging.
pub mod Base
pub mod Text
pub mod Adaptive
pub mod Tlv
pub mod Frame
pub mod MpegTs
pub mod TsDemux
pub mod M3u8
pub mod Hls
pub mod Cast
pub mod Nal
