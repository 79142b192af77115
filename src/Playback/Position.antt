-- ===== src/Playback/Position.antt =====
-- crates/discord-voice-service-playback/src/media/position.rs: how far the stream is read and played.
pub mod Monotone
use discord_voice_service.Common.{ℕ, ◌+◌, ◌*◌, max}
use discord_voice_service.Common.Words.{saturating_add, saturating_mul}
use discord_voice_service.Common.Bytes.{Bytes}
use discord_voice_service.Playback.OpusFrame.{duration_ms_from_samples}

-- `DemuxedPacket` of webm_demux.rs
pub record DemuxedPacket : Type 0 where
  pub packet_data : Bytes
  pub timestamp_ms : ℕ
  pub timestamp_samples : ℕ
  pub duration_ms : ℕ
  pub duration_samples : ℕ

pub record PlaybackPosition : Type 0 where
  pub byte_offset : ℕ
  pub timestamp_ms : ℕ
  pub timestamp_samples : ℕ
  pub sent_duration_samples : ℕ

abbrev pub default_position : PlaybackPosition
default_position = record {
  byte_offset = 0;
  timestamp_ms = 0;
  timestamp_samples = 0;
  sent_duration_samples = 0;
}

unfoldable pub sent_duration_ms : PlaybackPosition → ℕ
sent_duration_ms p = duration_ms_from_samples p.sent_duration_samples

unfoldable pub set_byte_offset : ℕ → PlaybackPosition → PlaybackPosition
set_byte_offset byte_offset p = record p { byte_offset = byte_offset }

unfoldable pub advance_bytes : ℕ → PlaybackPosition → PlaybackPosition
advance_bytes bytes p = record p { byte_offset = saturating_add p.byte_offset bytes }

unfoldable pub set_timestamp_ms : ℕ → PlaybackPosition → PlaybackPosition
set_timestamp_ms timestamp_ms p = record p {
  timestamp_ms = timestamp_ms;
  timestamp_samples = max p.timestamp_samples (saturating_mul timestamp_ms 48);
}

unfoldable pub advance_timestamp_ms : ℕ → PlaybackPosition → PlaybackPosition
advance_timestamp_ms duration_ms p = record p {
  timestamp_ms = saturating_add p.timestamp_ms duration_ms;
  timestamp_samples =
      max p.timestamp_samples (saturating_mul (saturating_add p.timestamp_ms duration_ms) 48);
}

unfoldable pub record_buffered : DemuxedPacket → PlaybackPosition → PlaybackPosition
record_buffered packet p =
    let buffered_until_samples = saturating_add packet.timestamp_samples packet.duration_samples in
    let timestamp_samples = max p.timestamp_samples buffered_until_samples in
    record p {
      timestamp_samples = timestamp_samples;
      timestamp_ms = max p.timestamp_ms (duration_ms_from_samples timestamp_samples);
    }

-- Also `record_sent_packet_samples`, which widens its argument.
unfoldable pub record_sent_duration_samples : ℕ → PlaybackPosition → PlaybackPosition
record_sent_duration_samples duration_samples p = record p {
  sent_duration_samples = saturating_add p.sent_duration_samples duration_samples;
}

unfoldable pub set_sent_duration_samples : ℕ → PlaybackPosition → PlaybackPosition
set_sent_duration_samples sent_duration_samples p = record p {
  sent_duration_samples = sent_duration_samples;
}
