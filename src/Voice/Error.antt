-- ===== src/Voice/Error.antt =====
-- crates/discord-voice-service-voice/src/error.rs. The errors that foreign libraries report are
-- one constructor each, without their content.
use discord_voice_service.Common.{String, ℕ, Bool, false, ◌||◌, str_eq}

pub data VoiceError : Type 0 where
  unsupported_encryption_mode : VoiceError
  unsupported_gateway_op : ℕ → VoiceError
  unsupported_binary_gateway_op : ℕ → VoiceError
  invalid_state : String → VoiceError
  io : VoiceError
  invalid_uri : VoiceError
  web_socket : VoiceError

unfoldable pub is_gateway_closed_during_receive : VoiceError → Bool
is_gateway_closed_during_receive (invalid_state s) = str_eq s "voice gateway closed during receive"
is_gateway_closed_during_receive _ = false

unfoldable pub is_packet_unprotect_failure : VoiceError → Bool
is_packet_unprotect_failure (invalid_state s) =
    str_eq s "voice protected packet truncated"
    || str_eq s "voice protected packet body too short"
    || str_eq s "voice packet unprotect failed"
    || str_eq s "voice rtp padding invalid"
is_packet_unprotect_failure _ = false
