-- ===== src/Runtime/Error.antt =====
-- crates/discord-voice-service-runtime/src/error.rs
use discord_voice_service.Common.{String}
use discord_voice_service.Playback.Error.{PlaybackError}
use discord_voice_service.Voice.Error.{VoiceError}

pub data RuntimeError : Type 0 where
  invalid_state : String → RuntimeError
  playback : PlaybackError → RuntimeError
  voice : VoiceError → RuntimeError
