-- ===== src/Voice/Receive/Examples.antt =====
-- Receiving at concrete inputs.
use discord_voice_service.Common.{◌≡◌, refl, true, false, some, none, List, [], ◌∷◌, ok, replicate}
use discord_voice_service.Common.Bytes.{Bytes}
use discord_voice_service.Voice.Crypto.{EncryptionMode}
use discord_voice_service.Voice.Rtp.{RtpHeader, parse_rtp_header, read_header}
use discord_voice_service.Voice.Protection.{Aead}
use discord_voice_service.Voice.Receive.{ObservedVoiceSession, process_audio_packet, map_get}
use discord_voice_service.Voice.Receive.Attribution.{Attributed, process_audio_packet-Attributed}
use discord_voice_service.Voice.Receive.Pending.{
  Delivered, try_decode_pending_audio_frame, try_decode_pending_audio_frame-Delivered,
}
use discord_voice_service.Voice.Receive.Mapping.{
  SpeakerEvent, spoke, came, went, apply_events, map_get-apply_events,
}

-- A cipher that adds a tag of zeros.
abbrev plain : Aead
plain = record {
  accepts_key = λ key. true;
  encrypt = λ key nonce ad text. some (text, []);
  decrypt = λ key nonce ad text tag. some text;
}

abbrev session : ObservedVoiceSession
session = record {
  own_user_id = "bot";
  protection =
      some
        (record { mode = EncryptionMode.aead_aes256_gcm_rtpsize; secret_key = []; next_nonce = 0 });
  dave = none;
  dave_recognized_user_ids = [];
  speaker_ssrcs = (7, "ann") ∷ [];
  pending_speaking_states = [];
  pending_disconnects = [];
  remote_speaker_candidates = "ann" ∷ [];
  pending_packets = [];
}

abbrev packet : Bytes
packet = 0x80 ∷ 0x78 ∷ 0 ∷ 1 ∷ 0 ∷ 0 ∷ 0 ∷ 2 ∷ 0 ∷ 0 ∷ 0 ∷ 7 ∷ 0xf8 ∷ replicate 20 0

abbrev header : RtpHeader
header = record {
  version = 2;
  padding = false;
  extension = false;
  csrc_count = 0;
  marker = false;
  payload_type = 0x78;
  sequence = 1;
  timestamp = 2;
  ssrc = 7;
  header_len = 12;
}

header_read : parse_rtp_header packet ≡ ok header
unfolding parse_rtp_header read_header
header_read = refl

process_audio_packet-Attributed_example :
    Attributed
      (some "ann")
      header
      (process_audio_packet (λ mode. plain) packet 100 (some "ann") session)
process_audio_packet-Attributed_example =
    process_audio_packet-Attributed (λ mode. plain) packet 100 (some "ann") session header
      header_read

-- Ann goes, and Ben speaks with her SSRC.
abbrev events : List SpeakerEvent
events =
    went "ann"
    ∷ came ("ben" ∷ [])
    ∷ spoke (record { speaking = 1; ssrc = 7; user_id = some "ben" })
    ∷ []

map_get-apply_events_example : map_get 7 (apply_events events session).speaker_ssrcs ≡ some "ben"
map_get-apply_events_example = map_get-apply_events events session 7 (refl, tt)

-- The packet waits under the SSRC of Ann.
abbrev waiting : ObservedVoiceSession
waiting = record session {
  pending_packets = (7, record { header = header; packet = packet; received_at = 100 }) ∷ [];
}

try_decode_pending_audio_frame-Delivered_example :
    Delivered (some "ann") (try_decode_pending_audio_frame (λ mode. plain) (some "ann") waiting)
try_decode_pending_audio_frame-Delivered_example =
    try_decode_pending_audio_frame-Delivered (λ mode. plain) (some "ann") waiting refl
