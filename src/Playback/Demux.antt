-- ===== src/Playback/Demux.antt =====
-- crates/discord-voice-service-playback/src/media/webm_demux.rs: the Opus packets of a WebM stream that
-- arrives in chunks. The WebM parser is a library of others and a parameter: the tags that its iterator
-- gives for an input, and its reading of the two kinds of blocks.
pub mod Timestamps
pub mod Draining
use discord_voice_service.Common.{
  ℕ, ◌+◌, ◌-◌, ◌*◌, ◌/◌, ◌%◌, ◌^◌, suc, min, Bool, true, false, ◌&&◌, not, Option, none, some, List,
  [], ◌∷◌, ◌++◌, String, ltb, ◌==◌, str_eq, if◌then◌else◌, length, drop, Result, ok, err, ◌>>=◌,
  ok_or, ◌⊎◌, inl, inr,
}
use discord_voice_service.Common.Maybe.{◌>>=◌ as ◌>>=?◌, option_map}
use discord_voice_service.Common.Words.{saturating_add, try_into}
use discord_voice_service.Common.Bytes.{Bytes}
use discord_voice_service.Playback.Error.{PlaybackError, media_parse, media_parse_detail}
use discord_voice_service.Playback.OpusFrame.{
  OpusPacketDuration, opus_packet_duration, duration_ms_from_samples,
}
use discord_voice_service.Playback.Position.{DemuxedPacket}

-- The timestamp of a block, relative to its cluster.
pub data ℤ : Type 0 where
  pos : ℕ → ℤ
  negsuc : ℕ → ℤ

-- What is read of a parsed block: `read_frame_data` gives its frames.
pub record Block : Type 0 where
  pub track : ℕ
  pub timestamp : ℤ
  pub frame_data : String ⊎ List Bytes

-- The tags inside of a track entry and a block group that the code looks at.
pub data Child : Type 0 where
  track_number : ℕ → Child
  codec_id : String → Child
  track_type : ℕ → Child
  child_block : Bytes → Child
  other_child : Child

pub data Tag : Type 0 where
  timestamp_scale : ℕ → Tag
  timestamp_tag : ℕ → Tag
  track_entry : List Child → Tag
  simple_block : Bytes → Tag
  block : Bytes → Tag
  block_group : List Child → Tag
  other_tag : Tag

-- What the iterator gives: a tag, or the error that ends the input inside of a tag, or another.
pub data Item : Type 0 where
  tag : Tag → Item
  unexpected_eof : ℕ → Item
  corrupted : Item

pub record WebmParser : Type 0 where
  pub iterate : Bytes → List Item
  pub read_simple_block : Bytes → String ⊎ Block
  pub read_block : Bytes → String ⊎ Block

-- `opus_track` is the number in the `TrackState`.
pub record WebmDemuxState : Type 0 where
  pub timestamp_scale_ns : ℕ
  pub cluster_timestamp : ℕ
  pub opus_track : Option ℕ

abbrev pub default_state : WebmDemuxState
default_state = record { timestamp_scale_ns = 1_000_000; cluster_timestamp = 0; opus_track = none }

pub record WebmOpusDemux : Type 0 where
  pub pending : Bytes
  pub state : WebmDemuxState

abbrev pub default_demux : WebmOpusDemux
default_demux = record { pending = []; state = default_state }

pub data ParseOutcome : Type 0 where
  complete : WebmDemuxState → List DemuxedPacket → ParseOutcome
  incomplete : WebmDemuxState → List DemuxedPacket → ℕ → ParseOutcome
  stalled : ParseOutcome

-- The result of the parser, with its error as the program's.
abbrev pub map_webm_coercion_error {ℓ} : {A : Type ℓ} → String ⊎ A → Result PlaybackError A
map_webm_coercion_error (inl message) = err (media_parse_detail message)
map_webm_coercion_error (inr a) = ok a

unfoldable pub is_target_track : WebmDemuxState → ℕ → Bool
is_target_track s n = is_track s.opus_track
  where
    is_track : Option ℕ → Bool
    is_track none = true
    is_track (some number) = number == n

-- The products are in 128 bits.
unfoldable pub scale_timestamp_to_samples : WebmDemuxState → ℕ → Result PlaybackError ℕ
scale_timestamp_to_samples s ticks = do
  scaled ← ok_or (try_into 128 (ticks * s.timestamp_scale_ns)) (media_parse "timestamp overflow")
  product ← ok_or (try_into 128 (scaled * 48_000)) (media_parse "timestamp overflow")
  rounded ← ok_or (try_into 128 (product + 500_000_000)) (media_parse "timestamp overflow")
  ok_or (try_into 64 (rounded / 1_000_000_000)) (media_parse "timestamp overflow")

unfoldable pub block_timestamp_samples : WebmDemuxState → ℤ → Result PlaybackError ℕ
block_timestamp_samples s (pos n) =
    scale_timestamp_to_samples s ((s.cluster_timestamp + n) % 2 ^ 64)
block_timestamp_samples s (negsuc n) =
    if ltb s.cluster_timestamp (suc n)
    then err (media_parse "negative block timestamp")
    else scale_timestamp_to_samples s (s.cluster_timestamp - suc n)

unfoldable pub opus_frame_durations : List Bytes → Option (List OpusPacketDuration)
opus_frame_durations [] = some []
opus_frame_durations (frame ∷ rest) =
    opus_packet_duration frame >>=? λ d. option_map (λ ds. d ∷ ds) (opus_frame_durations rest)

-- The loop of `frames_to_packets` over the frames and their durations.
unfoldable pub packets_from : ℕ → List Bytes → List OpusPacketDuration → List DemuxedPacket
packets_from timestamp_samples (frame ∷ frames) (duration ∷ durations) =
    record {
      packet_data = frame;
      timestamp_ms = duration_ms_from_samples timestamp_samples;
      timestamp_samples = timestamp_samples;
      duration_ms = duration.ms;
      duration_samples = duration.samples;
    }
    ∷ packets_from (saturating_add timestamp_samples duration.samples) frames durations
packets_from timestamp_samples [] durations = []
packets_from timestamp_samples (frame ∷ frames) [] = []

packets_of_durations : WebmDemuxState → ℤ → List Bytes → Result PlaybackError (List DemuxedPacket)
packets_of_durations s relative_timestamp frames = do
  durations ← ok_or (opus_frame_durations frames) (media_parse "unsupported opus packet duration")
  timestamp_samples ← block_timestamp_samples s relative_timestamp
  ok (packets_from timestamp_samples frames durations)

unfoldable pub frames_to_packets :
    WebmDemuxState → ℤ → List Bytes → Result PlaybackError (List DemuxedPacket)
unfolding packets_of_durations
frames_to_packets s relative_timestamp [] = ok []
frames_to_packets s relative_timestamp (frame ∷ frames) =
    packets_of_durations s relative_timestamp (frame ∷ frames)

block_frames : WebmDemuxState → Block → Result PlaybackError (List DemuxedPacket)
block_frames s b = do
  frames ← map_webm_coercion_error b.frame_data
  frames_to_packets s b.timestamp frames

-- `extract_simple_block` and `extract_block`
unfoldable pub extract_block : WebmDemuxState → Block → Result PlaybackError (List DemuxedPacket)
unfolding block_frames
extract_block s b = if not (is_target_track s b.track) then ok [] else block_frames s b

-- The last block of the group.
unfoldable pub last_block : Option Bytes → List Child → Option Bytes
last_block found [] = found
last_block found (child_block bytes ∷ rest) = last_block (some bytes) rest
last_block found (track_number n ∷ rest) = last_block found rest
last_block found (codec_id n ∷ rest) = last_block found rest
last_block found (track_type n ∷ rest) = last_block found rest
last_block found (other_child ∷ rest) = last_block found rest

-- What the loop of `update_track` has seen last: a number, a codec and a type.
pub record TrackFields : Type 0 where
  pub number : Option ℕ
  pub codec : Option String
  pub kind : Option ℕ

unfoldable pub track_fields : TrackFields → List Child → TrackFields
track_fields seen [] = seen
track_fields seen (track_number n ∷ rest) = track_fields (record seen { number = some n }) rest
track_fields seen (codec_id c ∷ rest) = track_fields (record seen { codec = some c }) rest
track_fields seen (track_type k ∷ rest) = track_fields (record seen { kind = some k }) rest
track_fields seen (child_block bytes ∷ rest) = track_fields seen rest
track_fields seen (other_child ∷ rest) = track_fields seen rest

abbrev is_audio : Option ℕ → Bool
is_audio none = false
is_audio (some k) = k == 2

abbrev is_opus : Option String → Bool
is_opus none = false
is_opus (some c) = str_eq c "A_OPUS"

unfoldable pub update_track : WebmDemuxState → List Child → WebmDemuxState
update_track s children =
    let seen = track_fields (record { number = none; codec = none; kind = none }) children in
    if is_audio seen.kind && is_opus seen.codec then record s { opus_track = seen.number } else s

module _ (parser : WebmParser) where
  group_packets : WebmDemuxState → Option Bytes → Result PlaybackError (List DemuxedPacket)
  group_packets s none = ok []
  group_packets s (some bytes) = do
    b ← map_webm_coercion_error (parser.read_block bytes)
    extract_block s b

  unfoldable pub extract_block_group :
      WebmDemuxState → List Child → Result PlaybackError (List DemuxedPacket)
  unfolding group_packets
  extract_block_group s children = group_packets s (last_block none children)

  -- The state and the new packets.
  unfoldable pub process_tag :
      WebmDemuxState → Tag → Result PlaybackError (WebmDemuxState × List DemuxedPacket)
  process_tag s (timestamp_scale scale) = ok (record s { timestamp_scale_ns = scale }, [])
  process_tag s (timestamp_tag t) = ok (record s { cluster_timestamp = t }, [])
  process_tag s (track_entry children) = ok (update_track s children, [])
  process_tag s (simple_block bytes) = do
    b ← map_webm_coercion_error (parser.read_simple_block bytes)
    packets ← extract_block s b
    ok (s, packets)
  process_tag s (block bytes) = do
    b ← map_webm_coercion_error (parser.read_block bytes)
    packets ← extract_block s b
    ok (s, packets)
  process_tag s (block_group children) = do
    packets ← extract_block_group s children
    ok (s, packets)
  process_tag s other_tag = ok (s, [])

  -- The loop of `parse_available`.
  unfoldable pub parse_items :
      WebmDemuxState → List DemuxedPacket → List Item → Result PlaybackError ParseOutcome
  parse_items s packets [] = ok (complete s packets)
  parse_items s packets (unexpected_eof tag_start ∷ rest) = ok (incomplete s packets tag_start)
  parse_items s packets (corrupted ∷ rest) = ok stalled
  parse_items s packets (tag t ∷ rest) = do
    (s', new) ← process_tag s t
    parse_items s' (packets ++ new) rest

  unfoldable pub parse_available : WebmDemuxState → Bytes → Result PlaybackError ParseOutcome
  parse_available s input = parse_items s [] (parser.iterate input)

abbrev pub is_nonempty {ℓ} : {A : Type ℓ} → List A → Bool
is_nonempty [] = false
is_nonempty (x ∷ xs) = true

unfoldable pub push_bytes : WebmOpusDemux → Bytes → WebmOpusDemux
push_bytes d chunk = record d { pending = d.pending ++ chunk }

-- What `drain_packets` does with the outcome.
unfoldable pub take_outcome : WebmOpusDemux → ParseOutcome → List DemuxedPacket × WebmOpusDemux
take_outcome d (complete s packets) = (packets, record { pending = []; state = s })
take_outcome d (incomplete s packets tail_start) =
    if ltb 0 tail_start && is_nonempty packets
    then (
      packets,
      record { pending = drop (min tail_start (length d.pending)) d.pending; state = s },
    )
    else ([], d)
take_outcome d stalled = ([], d)

drain_pending :
    WebmParser → WebmOpusDemux → Bytes → Result PlaybackError (List DemuxedPacket × WebmOpusDemux)
drain_pending parser d [] = ok ([], d)
drain_pending parser d (b ∷ bytes) = do
  outcome ← parse_available parser d.state (b ∷ bytes)
  ok (take_outcome d outcome)

-- The packets and the demuxer after them. An error leaves the demuxer as it was.
unfoldable pub drain_packets :
    WebmParser → WebmOpusDemux → Result PlaybackError (List DemuxedPacket × WebmOpusDemux)
unfolding drain_pending
drain_packets parser d = drain_pending parser d d.pending
