-- ===== src/Lib.antt =====
-- A verification library of discord-voice-service, which plays a music stream into a Discord voice
-- channel. The program has four crates that carry its logic.
--
-- * crates/discord-voice-service-playback takes a stream from a selected format to Opus frames:
--   Playback/Selector (`select_song_stream_format` of src/selector.rs), Playback/Demux
--   (`WebmOpusDemux` of src/media/webm_demux.rs), Playback/OpusFrame and Playback/OpusQueue
--   (src/media/opus_queue.rs), Playback/Position (src/media/position.rs), Playback/HttpRange and
--   Playback/HttpStream (src/media/http_stream.rs), Playback/Source (src/source.rs), Playback/Recovery
--   and Playback/Opening (src/recovery.rs), Playback/Worker (src/worker.rs), Playback/Pacer
--   (src/pacer.rs), Playback/Normalizer (src/media/opus_normalizer.rs) and Playback/Error
--   (src/error.rs).
-- * crates/discord-voice-service-voice takes frames to protected RTP packets on a UDP socket and
--   reads the voice gateway: Voice/Rtp (src/rtp.rs), Voice/Crypto (src/crypto.rs),
--   Voice/Protection (src/protection.rs), Voice/Udp (src/udp.rs and the silence of
--   src/speaking.rs), Voice/Discovery (src/discovery.rs), Voice/Wire (src/dave/wire.rs),
--   Voice/GatewayBinary (the binary messages of src/protocol.rs), Voice/Receive (src/receive.rs:
--   whose audio a packet carries, and Receive/Pending, the retry of packets that wait) and
--   Voice/Error (src/error.rs).
-- * crates/discord-voice-service-runtime joins the two: Runtime/State and Runtime/Readiness
--   (src/session/state.rs and readiness.rs: the session and which commands it accepts),
--   Runtime/Playout (the queue of prepared packets in src/session/runtime.rs),
--   Runtime/DeadlineSender (src/session/deadline_sender.rs: the loop that takes the prepared
--   packets, which Voice/Udp prepares, and sends one at each deadline) and Runtime/Error.
-- * The session itself is Runtime/Session (src/session/runtime.rs, events.rs and supervisor.rs of
--   the same crate). Session/Sections and Session/Rollover have one function for what each command
--   does while it holds the lock of the snapshot; Session/Commands and Session/Renewal make the
--   commands of them, and Session/Dispatch is `handle_command`. Session/Interleaving runs such
--   sections in any order. Runtime/Live is the driver of the live media in src/session/runtime.rs:
--   the frames between the source buffer, the egress buffer, the prepared packets and the deadline
--   sender.
--
-- * crates/discord-voice-service-twilight is what a bot uses to call the service: Twilight/Tracker is
--   `VoiceContextTracker` of src/lib.rs, which collects a voice context from gateway events, and
--   Twilight/History the specification by the history of these events.
--
-- Common holds what they share: lists and words over native numbers, bytes, results, options.
--
-- How the code is modelled. A struct is a record, an enum a data type, a method a function that
-- gives back the new state. A function that can fail comes back with `ok`, `err` or `panic`: an
-- index or a slice out of bounds is a panic, so a theorem that excludes panics is about the code's
-- own guards. Machine words are numbers whose wrap-around, saturation and checked conversions are
-- written out; a `usize` has 64 bits. Instants and durations are nanoseconds, and the clock, the
-- channels, the shared generation and the socket of a step are inputs of the step. Mutexes and
-- atomics are left out where one task owns the state; the send cursor, which two tasks share, has
-- its check and its compare-and-swap as two functions. The loops are by recursion on lists: the
-- frames, the tags, the ticks that there are. The loops that pop until a queue is empty, or take
-- frames off a buffer, are on fuel: one round more than the queue or the buffer is long, which is
-- enough, since every round takes something away. The loops that read over HTTP are on fuel too:
-- one read of a chunk asks for at most one more response, and a track is recovered with as many
-- reads as the resource has bytes and one (Playback/HttpStream/Ending, Playback/Opening/Returning).
--
-- Concurrency. The commands of the session run concurrently: each of their awaits runs the sections
-- of other commands that its `Surroundings` name, and a theorem about a command holds for any such
-- sections. The locks themselves are left out: that two of them are taken in opposite orders, and may
-- wait for each other, is no part of the model. An epoch is a 64-bit counter that wraps round.
--
-- Parameters. The Opus codec, the decryption of DAVE, the voice connection that a command makes,
-- what waiting for the media driver returns, and the pipeline that follows the resolving of a track
-- are arguments. The two ciphers are an interface whose laws are those of the AEAD traits. The WebM
-- parser is the list of tags that its iterator gives and its reading of blocks. The reading of
-- UTF-8 and the comparison of socket addresses are functions. The HTTP client is a function from a
-- URL and a first byte to the response that comes back, and the service that finds the URL of a
-- track is a function too. Of the events of the Twilight gateway the fields that are read are kept.
--
-- Not modelled: the JSON messages of the gateway, the handshake, the pipeline of a track and the
-- main loop of the media driver, the waiting loops of receiving, the metrics of playback, and the MLS
-- session, which are mostly calls of other services and libraries; and start-up, the gRPC
-- translation, metrics export, generated code, test fakes and the tools of the live validation.
pub mod Common
pub mod Voice
pub mod Playback
pub mod Runtime
pub mod Twilight
