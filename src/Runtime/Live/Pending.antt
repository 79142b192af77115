-- ===== src/Runtime/Live/Pending.antt =====
-- What the driver remembers of a command that it has given to the deadline sender, and how it
-- recognises the record that comes back.
use discord_voice_service.Common.{
  ℕ, Bool, true, false, ◌&&◌, Option, none, some, List, [], ◌∷◌, ◌==◌,
}
use discord_voice_service.Common.Words.{saturating_add}
use discord_voice_service.Common.Maybe.{◌>>=◌, option_map}
use discord_voice_service.Playback.OpusFrame.{OpusFrame, byte_len, duration_ms_from_samples}
use discord_voice_service.Playback.OpusQueue.{OpusBufferDepth}
use discord_voice_service.Runtime.DeadlineSender.{
  PreparedPacketKind, track, scheduled_silence, boundary_silence, PreparedMediaFrame,
  PreparedPlayoutCommand, DeadlineSendRecord, DeadlineDropRecord,
}
use discord_voice_service.Runtime.Live.QueueEvents.{EventKind, EventReason, QueueEvent}

pub record PendingDeadlineCommand : Type 0 where
  pub frame : Option OpusFrame
  pub kind : PreparedPacketKind
  pub duration_ms : ℕ
  pub duration_samples : ℕ
  pub rtp_sequence : ℕ
  pub rtp_timestamp : ℕ
  pub protection_nonce : Option ℕ
  pub media_frame : Option PreparedMediaFrame
  pub generation : ℕ

-- `PendingDeadlineCommand::new`
unfoldable pub new_pending : PreparedPlayoutCommand → Option OpusFrame → PendingDeadlineCommand
new_pending command frame = record {
  frame = frame;
  kind = command.kind;
  duration_ms = command.packet.duration_ms;
  duration_samples = command.packet.duration_samples;
  rtp_sequence = command.packet.rtp_sequence;
  rtp_timestamp = command.packet.rtp_timestamp;
  protection_nonce = command.packet.protection_nonce;
  media_frame = command.media_frame;
  generation = command.generation;
}

unfoldable pub pending_prepared_playout_queue_event :
    EventKind → EventReason → PendingDeadlineCommand → OpusBufferDepth → QueueEvent
pending_prepared_playout_queue_event event_kind reason p queue_depth_after = record {
  event_kind = event_kind;
  reason = reason;
  command_kind = p.kind;
  media_duration_ms = p.duration_ms;
  media_duration_samples = p.duration_samples;
  rtp_sequence = p.rtp_sequence;
  rtp_timestamp = p.rtp_timestamp;
  protection_nonce = p.protection_nonce;
  source_frame_epoch = option_map (λ f. f.epoch) p.media_frame;
  source_media_position_ms = option_map (λ f. f.media_position_ms) p.media_frame;
  source_media_position_samples = option_map (λ f. f.media_position_samples) p.media_frame;
  source_media_byte_position = p.media_frame >>= λ f. f.media_byte_position;
  queue_depth_after = queue_depth_after;
}

abbrev pub default_depth : OpusBufferDepth
default_depth = record { packets = 0; bytes = 0; duration_ms = 0; duration_samples = 0 }

abbrev depth_of_frame : Option OpusFrame → OpusBufferDepth
depth_of_frame none = default_depth
depth_of_frame (some frame) = record {
  packets = 1;
  bytes = byte_len frame;
  duration_ms = frame.duration_ms;
  duration_samples = frame.duration_samples;
}

unfoldable pub track_depth : PendingDeadlineCommand → OpusBufferDepth
track_depth p = depth_of_frame p.frame

-- The sum that both functions on depths make, counter by counter.
unfoldable pub add_depth : OpusBufferDepth → OpusBufferDepth → OpusBufferDepth
add_depth a b =
    let samples = saturating_add a.duration_samples b.duration_samples in
    record {
      packets = saturating_add a.packets b.packets;
      bytes = saturating_add a.bytes b.bytes;
      duration_ms = duration_ms_from_samples samples;
      duration_samples = samples;
    }

abbrev fold_depth : OpusBufferDepth → List PendingDeadlineCommand → OpusBufferDepth
fold_depth sum [] = sum
fold_depth sum (p ∷ ps) = fold_depth (add_depth sum (track_depth p)) ps

unfoldable pub pending_deadline_track_depth : List PendingDeadlineCommand → OpusBufferDepth
pending_deadline_track_depth ps = fold_depth default_depth ps

-- The equality of the derived `PartialEq`s.
abbrev pub same_kind : PreparedPacketKind → PreparedPacketKind → Bool
same_kind track track = true
same_kind scheduled_silence scheduled_silence = true
same_kind boundary_silence boundary_silence = true
same_kind _ _ = false

abbrev pub same_option {ℓ} : {A : Type ℓ} → (A → A → Bool) → Option A → Option A → Bool
same_option same none none = true
same_option same (some a) (some b) = same a b
same_option same _ _ = false

abbrev pub same_media_frame : PreparedMediaFrame → PreparedMediaFrame → Bool
same_media_frame a b =
    (a.duration_ms == b.duration_ms)
    && ((a.duration_samples == b.duration_samples)
        && ((a.media_position_ms == b.media_position_ms)
            && ((a.media_position_samples == b.media_position_samples)
                && (same_option (λ m n. m == n) a.media_byte_position b.media_byte_position
                    && (a.epoch == b.epoch)))))

unfoldable pub matches_sent_record : PendingDeadlineCommand → DeadlineSendRecord → Bool
matches_sent_record p r =
    same_kind p.kind r.kind
    && ((p.duration_ms == r.duration_ms)
        && ((p.duration_samples == r.duration_samples)
            && ((p.rtp_sequence == r.rtp_sequence)
                && ((p.rtp_timestamp == r.rtp_timestamp)
                    && (same_option (λ m n. m == n) p.protection_nonce r.protection_nonce
                        && same_option same_media_frame p.media_frame r.media_frame)))))

unfoldable pub matches_drop_record : PendingDeadlineCommand → DeadlineDropRecord → Bool
matches_drop_record p r =
    same_kind p.kind r.kind
    && ((p.duration_ms == r.duration_ms)
        && ((p.duration_samples == r.duration_samples)
            && ((p.rtp_sequence == r.rtp_sequence)
                && ((p.rtp_timestamp == r.rtp_timestamp)
                    && (same_option (λ m n. m == n) p.protection_nonce r.protection_nonce
                        && (same_option same_media_frame p.media_frame r.media_frame
                            && (p.generation == r.generation)))))))
