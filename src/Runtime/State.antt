-- ===== src/Runtime/State.antt =====
-- crates/discord-voice-service-runtime/src/session/state.rs
use discord_voice_service.Common.{ℕ, Bool, false, String, Option, none}

pub data SessionState : Type 0 where
  idle : SessionState
  connecting_voice : SessionState
  voice_ready : SessionState
  resolving_track : SessionState
  buffering : SessionState
  playing : SessionState
  paused : SessionState
  stopping : SessionState
  error : SessionState

pub record Snapshot : Type 0 where
  pub state : SessionState
  pub guild_id : Option String
  pub channel_id : Option String
  pub current_video_id : Option String
  pub selected_itag : Option ℕ
  pub queue_depth : ℕ
  pub position_ms : ℕ
  pub recovering : Bool
  pub voice_reconnecting : Bool
  pub last_reason : Option String

abbrev pub default_snapshot : Snapshot
default_snapshot = record {
  state = idle;
  guild_id = none;
  channel_id = none;
  current_video_id = none;
  selected_itag = none;
  queue_depth = 0;
  position_ms = 0;
  recovering = false;
  voice_reconnecting = false;
  last_reason = none;
}
