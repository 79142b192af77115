-- ===== src/Runtime/Session/Events.antt =====
-- crates/discord-voice-service-runtime/src/session/events.rs, and the commands that the runtime sends
-- to the driver of the media.
use discord_voice_service.Common.{ℕ, Bool, String, Option}
use discord_voice_service.Runtime.State.{Snapshot}

pub data SessionEventKind : Type 0 where
  voice_connecting : SessionEventKind
  voice_ready : SessionEventKind
  track_resolving : SessionEventKind
  buffering : SessionEventKind
  playing : SessionEventKind
  paused : SessionEventKind
  stopped : SessionEventKind
  track_ended : SessionEventKind
  playback_interrupted : SessionEventKind
  recoverable_warning : SessionEventKind
  fatal_error : SessionEventKind
  voice_reconnecting : SessionEventKind

pub record SessionEventRecord : Type 0 where
  pub kind : SessionEventKind
  pub guild_id : Option String
  pub channel_id : Option String
  pub current_video_id : Option String
  pub selected_itag : Option ℕ
  pub message : Option String

unfoldable pub from_snapshot : SessionEventKind → Snapshot → SessionEventRecord
from_snapshot kind s = record {
  kind = kind;
  guild_id = s.guild_id;
  channel_id = s.channel_id;
  current_video_id = s.current_video_id;
  selected_itag = s.selected_itag;
  message = s.last_reason;
}

pub data MediaCommand : Type 0 where
  pause_media : MediaCommand
  resume_media : MediaCommand
  -- With `account_popped_frame_as_skipped`.
  stop_media : Bool → MediaCommand
