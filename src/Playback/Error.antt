-- ===== src/Playback/Error.antt =====
-- crates/discord-voice-service-playback/src/error.rs. What the standard library, the HTTP client and
-- the gRPC client report is one constructor each, without its content;
-- of an error of the HTTP client the status is kept, where it has one.
use discord_voice_service.Common.{ℕ, Option, String}

pub data PlaybackError : Type 0 where
  media_parse : String → PlaybackError
  media_parse_detail : String → PlaybackError
  unsupported_format : PlaybackError
  buffer_full : PlaybackError
  invalid_state : String → PlaybackError
  io : PlaybackError
  invalid_uri : PlaybackError
  http : Option ℕ → PlaybackError
  transport : PlaybackError
  grpc_status : PlaybackError
