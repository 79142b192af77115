-- ===== src/Runtime/Live/QueueEvents.antt =====
-- The events on the queue of prepared packets that the driver reports; the types are those of
-- crates/discord-voice-service-runtime/src/session/metrics.rs.
use discord_voice_service.Common.{ℕ, Option}
use discord_voice_service.Common.Maybe.{◌>>=◌, option_map}
use discord_voice_service.Playback.OpusQueue.{OpusBufferDepth}
use discord_voice_service.Runtime.DeadlineSender.{
  PreparedPacketKind, PreparedPlayoutCommand, DeadlineDropRecord,
}

pub data EventKind : Type 0 where
  unknown : EventKind
  enqueued : EventKind
  dequeued_to_deadline_sender : EventKind
  dropped_before_send : EventKind
  rebuilt : EventKind

pub data EventReason : Type 0 where
  unspecified : EventReason
  steady_playback : EventReason
  pause : EventReason
  stop : EventReason
  dave_transition_recovery : EventReason
  reconnect : EventReason
  source_underrun : EventReason
  natural_end : EventReason
  interruption : EventReason

-- `command_kind` is the kind itself, of which `playback_send_command_kind` is a copy.
pub record QueueEvent : Type 0 where
  pub event_kind : EventKind
  pub reason : EventReason
  pub command_kind : PreparedPacketKind
  pub media_duration_ms : ℕ
  pub media_duration_samples : ℕ
  pub rtp_sequence : ℕ
  pub rtp_timestamp : ℕ
  pub protection_nonce : Option ℕ
  pub source_frame_epoch : Option ℕ
  pub source_media_position_ms : Option ℕ
  pub source_media_position_samples : Option ℕ
  pub source_media_byte_position : Option ℕ
  pub queue_depth_after : OpusBufferDepth

unfoldable pub prepared_playout_queue_event :
    EventKind → EventReason → PreparedPlayoutCommand → OpusBufferDepth → QueueEvent
prepared_playout_queue_event event_kind reason command queue_depth_after = record {
  event_kind = event_kind;
  reason = reason;
  command_kind = command.kind;
  media_duration_ms = command.packet.duration_ms;
  media_duration_samples = command.packet.duration_samples;
  rtp_sequence = command.packet.rtp_sequence;
  rtp_timestamp = command.packet.rtp_timestamp;
  protection_nonce = command.packet.protection_nonce;
  source_frame_epoch = option_map (λ f. f.epoch) command.media_frame;
  source_media_position_ms = option_map (λ f. f.media_position_ms) command.media_frame;
  source_media_position_samples = option_map (λ f. f.media_position_samples) command.media_frame;
  source_media_byte_position = command.media_frame >>= λ f. f.media_byte_position;
  queue_depth_after = queue_depth_after;
}

unfoldable pub dropped_prepared_playout_queue_event :
    EventReason → DeadlineDropRecord → OpusBufferDepth → QueueEvent
dropped_prepared_playout_queue_event reason drop queue_depth_after = record {
  event_kind = dropped_before_send;
  reason = reason;
  command_kind = drop.kind;
  media_duration_ms = drop.duration_ms;
  media_duration_samples = drop.duration_samples;
  rtp_sequence = drop.rtp_sequence;
  rtp_timestamp = drop.rtp_timestamp;
  protection_nonce = drop.protection_nonce;
  source_frame_epoch = option_map (λ f. f.epoch) drop.media_frame;
  source_media_position_ms = option_map (λ f. f.media_position_ms) drop.media_frame;
  source_media_position_samples = option_map (λ f. f.media_position_samples) drop.media_frame;
  source_media_byte_position = drop.media_frame >>= λ f. f.media_byte_position;
  queue_depth_after = queue_depth_after;
}
