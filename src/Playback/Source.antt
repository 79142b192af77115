-- ===== src/Playback/Source.antt =====
-- crates/discord-voice-service-playback/src/source.rs: an open track. The position that it shares with
-- the worker is the worker's (Playback/Worker).
use discord_voice_service.Common.{ℕ, Option, String, List}
use discord_voice_service.Playback.Position.{DemuxedPacket, PlaybackPosition, set_byte_offset}
use discord_voice_service.Playback.Demux.{WebmOpusDemux}
use discord_voice_service.Playback.HttpStream.{
  HttpOpusStream, new_stream, set_resume_offset, offset,
}

pub record ResolvedPlaybackSource : Type 0 where
  pub selected_itag : ℕ
  pub playable_url : String
  pub approx_duration_ms : Option ℕ

pub record PlaybackSource : Type 0 where
  pub resolved : ResolvedPlaybackSource
  pub stream : HttpOpusStream
  pub demux : WebmOpusDemux
  pub pending_packets : List DemuxedPacket

unfoldable pub reset_stream_to_current_byte_offset : PlaybackSource → PlaybackSource
reset_stream_to_current_byte_offset s = record s {
  stream = set_resume_offset (offset s.stream) s.stream;
}

unfoldable pub replace_resolved_stream_at_current_byte_offset :
    ResolvedPlaybackSource → PlaybackSource → PlaybackSource
replace_resolved_stream_at_current_byte_offset resolved s = record s {
  resolved = resolved;
  stream = set_resume_offset (offset s.stream) (new_stream resolved.playable_url);
}

-- `live_position` and `sync_position`, with the shared position.
unfoldable pub sync_position : PlaybackSource → PlaybackPosition → PlaybackPosition
sync_position s position = set_byte_offset (offset s.stream) position
