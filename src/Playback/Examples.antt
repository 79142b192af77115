-- ===== src/Playback/Examples.antt =====
-- The playback crate at concrete inputs.
use discord_voice_service.Common.{
  ℕ, ◌+◌, ◌*◌, ◌/◌, ◌^◌, ◌<◌, ◌≤◌, ◌≡◌, refl, ◌⊎◌, inr, String, some, List, [], ◌∷◌, Ensures,
  Yields, arith,
}
use discord_voice_service.Common.Bytes.{Bytes}
use discord_voice_service.Playback.Error.{media_parse}
use discord_voice_service.Playback.OpusFrame.{
  OpusFrame, new_frame, opus_packet_duration, duration_ms_from_samples,
}
use discord_voice_service.Playback.OpusFrame.Duration.{rfc_duration, opus_packet_duration-rfc}
use discord_voice_service.Playback.OpusQueue.{OpusFrameQueue, with_resource_limits}
use discord_voice_service.Playback.OpusQueue.Invariant.{IsValid, with_resource_limits-IsValid}
use discord_voice_service.Playback.OpusQueue.Refine.{
  push_back_op, push_front_op, pop_op, drop_stale_op, limits, spec_run, run, run_refines,
}
use discord_voice_service.Playback.Selector.{
  SongStreamFormat, is_allowed, allowed, select_song_stream_format, sort_by_key, insert, key_before,
  priority_for_itag,
}
use discord_voice_service.Playback.Selector.Best.{
  Among, Allowed, IsBetter, select_song_stream_format-best,
}
use discord_voice_service.Playback.Position.{DemuxedPacket, default_position}
use discord_voice_service.Playback.Position.Monotone.{record_all, IsCovered, record_all_lem}
use discord_voice_service.Playback.Pacer.Spacing.{Send}
use discord_voice_service.Playback.Demux.{
  negsuc, Block, tag, simple_block, timestamp_tag, WebmParser, default_state, WebmOpusDemux,
  scale_timestamp_to_samples, frames_to_packets, drain_packets,
}
use discord_voice_service.Playback.Demux.Timestamps.{
  half_up, scale_timestamp_to_samples_lem, AreOfBlock, frames_to_packets-Ensures,
}
use discord_voice_service.Playback.Demux.Draining.{IsProgress, drain_packets-Ensures}

abbrev frame : OpusFrame
frame = new_frame (1 ∷ 2 ∷ 3 ∷ []) 20

abbrev queue : OpusFrameQueue
queue = with_resource_limits 2 100 500

queue-IsValid : IsValid queue
queue-IsValid = with_resource_limits-IsValid 2 100 500 (omega arith) (omega arith)

run_refines_example :
    run queue (
      push_back_op frame ∷ push_front_op frame ∷ push_back_op frame ∷ drop_stale_op 1 ∷ pop_op ∷ [])
    ≡ spec_run (limits queue) [] (
        push_back_op frame
        ∷ push_front_op frame
        ∷ push_back_op frame
        ∷ drop_stale_op 1
        ∷ pop_op
        ∷ [])
unfolding with_resource_limits
run_refines_example =
    run_refines queue
      (push_back_op frame
        ∷ push_front_op frame
        ∷ push_back_op frame
        ∷ drop_stale_op 1
        ∷ pop_op
        ∷ [])
      queue-IsValid

opus_packet_duration-rfc_example :
    opus_packet_duration (0xff ∷ 0x03 ∷ []) ≡ rfc_duration (0xff ∷ 0x03 ∷ [])
opus_packet_duration-rfc_example = opus_packet_duration-rfc (0xff ∷ 0x03 ∷ []) (omega arith)

abbrev format : ℕ → ℕ → SongStreamFormat
format itag bitrate = record {
  itag = itag;
  mime_type = "audio/webm; codecs=\"opus\"";
  bitrate = bitrate;
  audio_sample_rate = some 48_000;
  audio_channels = some 2;
}

abbrev formats : List SongStreamFormat
formats = format 249 48_000 ∷ format 251 130_000 ∷ format 250 60_000 ∷ []

select_song_stream_format-best_example :
    Among (format 250 60_000) formats
    × Allowed (format 250 60_000)
    × ((g : SongStreamFormat) → Among g formats → Allowed g → ¬ IsBetter g (format 250 60_000))
select_song_stream_format-best_example =
    select_song_stream_format-best formats (format 250 60_000) (
      unfold select_song_stream_format sort_by_key insert key_before priority_for_itag allowed
        is_allowed in
      refl)

abbrev packet : ℕ → DemuxedPacket
packet from = record {
  packet_data = [];
  timestamp_ms = from / 48;
  timestamp_samples = from;
  duration_ms = 20;
  duration_samples = 960;
}

abbrev packets : List DemuxedPacket
packets = packet 960 ∷ packet 0 ∷ []

record_all_lem_example :
    ((record_all packets default_position).timestamp_samples ≡ 1_920)
    × (0 ≤ (record_all packets default_position).timestamp_ms)
    × IsCovered (record_all packets default_position)
    × ((record_all packets default_position).byte_offset ≡ 0)
    × ((record_all packets default_position).sent_duration_samples ≡ 0)
record_all_lem_example =
    record_all_lem packets default_position (unfold duration_ms_from_samples in omega arith)

abbrev sends : List Send
sends = record { lateness = 1; duration = 20 } ∷ record { lateness = 25; duration = 20 } ∷ []

scale_timestamp_to_samples_lem_example :
    Yields
      (λ e. (e ≡ media_parse "timestamp overflow") × (2 ^ 64 * 1_000_000_000 ≤ half_up 1_000_000 3))
      (λ n.
        (n < 2 ^ 64)
        × (n * 1_000_000_000 ≤ half_up 1_000_000 3)
        × (half_up 1_000_000 3 < n * 1_000_000_000 + 1_000_000_000))
      (scale_timestamp_to_samples default_state 3)
scale_timestamp_to_samples_lem_example = scale_timestamp_to_samples_lem default_state 3

abbrev frames : List Bytes
frames = (0xfc ∷ []) ∷ (0xfc ∷ 1 ∷ []) ∷ []

frames_to_packets-Ensures_example :
    Ensures
      (AreOfBlock (record default_state { cluster_timestamp = 5 }) (negsuc 2) frames)
      (frames_to_packets (record default_state { cluster_timestamp = 5 }) (negsuc 2) frames)
frames_to_packets-Ensures_example =
    frames_to_packets-Ensures (record default_state { cluster_timestamp = 5 }) (negsuc 2) frames

abbrev block_of : Bytes → String ⊎ Block
block_of bytes = inr (record { track = 1; timestamp = negsuc 0; frame_data = inr (bytes ∷ []) })

-- A parser that takes each input for one block behind a timestamp.
abbrev parser : WebmParser
parser = record {
  iterate = λ input. tag (timestamp_tag 10) ∷ tag (simple_block input) ∷ [];
  read_simple_block = block_of;
  read_block = block_of;
}

abbrev demux : WebmOpusDemux
demux = record { pending = 0xfc ∷ 7 ∷ []; state = default_state }

drain_packets-Ensures_example : Ensures (IsProgress parser demux) (drain_packets parser demux)
drain_packets-Ensures_example = drain_packets-Ensures parser demux
