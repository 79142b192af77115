-- ===== src/Runtime/Live/Examples.antt =====
-- The driver of the live media at concrete inputs.
use mathlib.Core.List.{Perm}
use discord_voice_service.Common.{arith, ◌≡◌, true, false, some, none, [], ◌∷◌, ◌++◌}
use discord_voice_service.Playback.Error.{unsupported_format}
use discord_voice_service.Playback.OpusFrame.{OpusFrame, new_frame}
use discord_voice_service.Playback.OpusQueue.{with_resource_limits}
use discord_voice_service.Runtime.DeadlineSender.{PreparedPlayoutCommand, track}
use discord_voice_service.Runtime.Playout.{PreparedTrackPlayout, new_egress_buffer}
use discord_voice_service.Runtime.Live.QueueEvents.{pause}
use discord_voice_service.Runtime.Live.Driver.{LiveMediaDriver}
use discord_voice_service.Runtime.Live.Flush.{flush_frames, flush_egress_buffer_for_interruption}
use discord_voice_service.Runtime.Live.Conservation.{
  buffers, flush_frames-conserves, flush_egress_buffer-forgets_error,
}
use discord_voice_service.Runtime.Live.Matching.{Sending, Dropping, pending_sent, pending_dropped}

abbrev frame : OpusFrame
frame = new_frame (0xfc ∷ 1 ∷ []) 20

abbrev command : PreparedPlayoutCommand
command = record {
  packet = record {
    bytes = 0x80 ∷ 0x78 ∷ [];
    duration_ms = 20;
    duration_samples = 960;
    is_track = true;
    rtp_sequence = 7;
    rtp_timestamp = 960;
    protection_nonce = some 3;
  };
  kind = track;
  media_frame = none;
  generation = 0;
}

abbrev prepared : PreparedTrackPlayout
prepared = record { command = command; frame = frame }

-- Two packets are prepared; the source has one frame and an error of its producer.
abbrev driver : LiveMediaDriver
driver = record {
  source_buffer = record {
    queue = record (with_resource_limits 8 1_000 500) { inner = frame ∷ [] };
    end_of_stream = false;
    error = some unsupported_format;
  };
  egress_buffer = new_egress_buffer;
  prepared_playout_queue = record {
    queue = prepared ∷ prepared ∷ [];
    packets = 2;
    bytes = 4;
    duration_samples = 1_920;
  };
  playout_generation = 0;
  playback_epoch = 1;
  prepared_rebuild_credits = [];
  account_popped_frame_as_skipped_on_stop = false;
  pending = [];
  channel = [];
  metrics = [];
}

flush_frames-conserves_example :
    Perm
      (buffers (flush_frames pause (frame ∷ frame ∷ []) driver))
      ((driver.egress_buffer.inner ++ (frame ∷ frame ∷ [])) ++ driver.source_buffer.queue.inner)
flush_frames-conserves_example = flush_frames-conserves pause (frame ∷ frame ∷ []) driver

flush_egress_buffer-forgets_error_example :
    (flush_egress_buffer_for_interruption pause (frame ∷ []) driver).source_buffer.error ≡ none
flush_egress_buffer-forgets_error_example =
    flush_egress_buffer-forgets_error pause (frame ∷ []) driver (omega arith)

abbrev sent_one : Sending
sent_one = record {
  command = command;
  frame = some frame;
  expected_deadline = 20;
  send_started_at = 20;
  sent_at = 21;
}

abbrev dropped_one : Dropping
dropped_one = record { command = command; frame = some frame }

abbrev waiting : LiveMediaDriver
waiting = record driver { pending = pending_sent sent_one ∷ pending_dropped dropped_one ∷ [] }
