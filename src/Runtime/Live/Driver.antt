-- ===== src/Runtime/Live/Driver.antt =====
-- The state of the driver, and its operations on the source buffer, on the credits of frames that are
-- prepared again, and on the deadline sender. `metrics` is what was given to the channel of metrics.
use discord_voice_service.Common.{
  ℕ, ◌+◌, ◌-◌, ◌%◌, ◌^◌, Bool, false, ◌&&◌, Option, none, some, List, [], ◌∷◌, ◌++◌, ◌==◌, leb,
  if◌then◌else◌, length, Result, ok, err, panic,
}
use discord_voice_service.Playback.Error.{PlaybackError}
use discord_voice_service.Playback.OpusFrame.{OpusFrame, with_epoch}
use discord_voice_service.Playback.OpusQueue.{
  OpusFrameQueue, OpusBufferDepth, push_front, pop, depth,
}
use discord_voice_service.Runtime.Error.{RuntimeError, playback, invalid_state}
use discord_voice_service.Runtime.DeadlineSender.{PreparedMediaFrame, PreparedPlayoutCommand}
use discord_voice_service.Runtime.Playout.{PreparedPlayoutQueue}
use discord_voice_service.Runtime.Live.QueueEvents.{EventReason, QueueEvent}
use discord_voice_service.Runtime.Live.Pending.{PendingDeadlineCommand, same_option}

-- The metrics that the operations of these modules report.
pub data PlaybackPipelineMetric : Type 0 where
  queue_event : QueueEvent → PlaybackPipelineMetric
  egress_depth : OpusBufferDepth → PlaybackPipelineMetric
  source_depth : OpusBufferDepth → PlaybackPipelineMetric
  restored_source_frames : (frame_count duration_samples : ℕ) → PlaybackPipelineMetric
  discarded_source_frames :
      (reason : EventReason) (frame_count duration_samples : ℕ) → PlaybackPipelineMetric
  egress_dropped_music_frames : (frame_count duration_samples : ℕ) → PlaybackPipelineMetric
  sender_skipped_source_frames :
      (frame_count duration_samples : ℕ) (remaining_depth : OpusBufferDepth)
      → PlaybackPipelineMetric
  sender_resumed_after_source_underrun : OpusBufferDepth → PlaybackPipelineMetric

-- The buffer that the producer of frames fills, under its lock.
pub record SourceBufferState : Type 0 where
  pub queue : OpusFrameQueue
  pub end_of_stream : Bool
  pub error : Option PlaybackError

pub record PreparedFrameIdentity : Type 0 where
  pub epoch : ℕ
  pub source_position_ms : ℕ
  pub source_position_samples : ℕ
  pub source_byte_position : Option ℕ

pub record PreparedFrameRebuildCredit : Type 0 where
  pub identity : PreparedFrameIdentity
  pub reason : EventReason

-- `pending` is the queue of pending commands that `run_loop` keeps, and `channel` holds the commands
-- that were given to the present deadline sender and that it has not taken yet.
pub record LiveMediaDriver : Type 0 where
  pub source_buffer : SourceBufferState
  pub egress_buffer : OpusFrameQueue
  pub prepared_playout_queue : PreparedPlayoutQueue
  pub playout_generation : ℕ
  pub playback_epoch : ℕ
  pub prepared_rebuild_credits : List PreparedFrameRebuildCredit
  pub account_popped_frame_as_skipped_on_stop : Bool
  pub pending : List PendingDeadlineCommand
  pub channel : List PreparedPlayoutCommand
  pub metrics : List PlaybackPipelineMetric

-- `LIVE_DEADLINE_COMMAND_CHANNEL_CAPACITY`
abbrev pub live_deadline_command_channel_capacity : ℕ
live_deadline_command_channel_capacity = 25

abbrev pub report : PlaybackPipelineMetric → LiveMediaDriver → LiveMediaDriver
report metric d = record d { metrics = d.metrics ++ (metric ∷ []) }

unfoldable pub prepared_media_frame : OpusFrame → PreparedMediaFrame
prepared_media_frame frame = record {
  duration_ms = frame.duration_ms;
  duration_samples = frame.duration_samples;
  media_position_ms = frame.source_position_ms;
  media_position_samples = frame.source_position_samples;
  media_byte_position = frame.source_byte_position;
  epoch = frame.epoch;
}

unfoldable pub prepared_frame_identity : OpusFrame → PreparedFrameIdentity
prepared_frame_identity frame = record {
  epoch = frame.epoch;
  source_position_ms = frame.source_position_ms;
  source_position_samples = frame.source_position_samples;
  source_byte_position = frame.source_byte_position;
}

abbrev pub same_identity : PreparedFrameIdentity → PreparedFrameIdentity → Bool
same_identity a b =
    (a.epoch == b.epoch)
    && ((a.source_position_ms == b.source_position_ms)
        && ((a.source_position_samples == b.source_position_samples)
            && same_option (λ m n. m == n) a.source_byte_position b.source_byte_position))

abbrev pub credit : EventReason → OpusFrame → PreparedFrameRebuildCredit
credit reason frame = record { identity = prepared_frame_identity frame; reason = reason }

unfoldable pub invalidate_prepared_playout_generation : LiveMediaDriver → LiveMediaDriver
invalidate_prepared_playout_generation d = record d {
  playout_generation = (d.playout_generation + 1) % (2 ^ 64);
}

unfoldable pub remember_rebuild_credit : OpusFrame → EventReason → LiveMediaDriver → LiveMediaDriver
remember_rebuild_credit frame reason d = record d {
  prepared_rebuild_credits = d.prepared_rebuild_credits ++ (credit reason frame ∷ []);
}

-- The first credit of a frame with that identity, and the credits without it.
unfoldable pub find_credit :
    PreparedFrameIdentity
    → List PreparedFrameRebuildCredit
    → Option EventReason × List PreparedFrameRebuildCredit
find_credit identity [] = (none, [])
find_credit identity (c ∷ cs) =
    let rest = find_credit identity cs in
    if same_identity c.identity identity then (some c.reason, cs) else (rest.0, c ∷ rest.1)

unfoldable pub take_rebuild_credit :
    OpusFrame → LiveMediaDriver → Option EventReason × LiveMediaDriver
take_rebuild_credit frame d =
    let found = find_credit (prepared_frame_identity frame) d.prepared_rebuild_credits in
    (found.0, record d { prepared_rebuild_credits = found.1 })

abbrev with_queue : LiveMediaDriver → OpusFrameQueue → LiveMediaDriver
with_queue d queue = record d { source_buffer = record d.source_buffer { queue = queue } }

abbrev take_error :
    Option PlaybackError → LiveMediaDriver → Result RuntimeError OpusBufferDepth × LiveMediaDriver
take_error (some e) d =
    (err (playback e), record d { source_buffer = record d.source_buffer { error = none } })
take_error none d = (ok (depth d.source_buffer.queue), d)

-- An error of the producer is taken out of the buffer.
unfoldable pub current_source_depth :
    LiveMediaDriver → Result RuntimeError OpusBufferDepth × LiveMediaDriver
current_source_depth d = take_error d.source_buffer.error d

abbrev restored :
    LiveMediaDriver
    → Result OpusFrame (Unit {0}) × OpusFrameQueue
    → Result OpusFrame OpusBufferDepth × LiveMediaDriver
restored d (ok u, queue) =
    let after = report (source_depth (depth queue)) (with_queue d queue) in
    (ok (depth queue), after)
restored d (err frame, queue) = (err frame, d)
restored d (panic, queue) = (panic, d)

unfoldable pub restore_live_source_frame :
    OpusFrame → LiveMediaDriver → Result OpusFrame OpusBufferDepth × LiveMediaDriver
restore_live_source_frame frame d = restored d (push_front d.source_buffer.queue frame)

pub record LiveSourcePoll : Type 0 where
  pub frame : Option OpusFrame
  pub depth : OpusBufferDepth
  pub ended : Bool

abbrev poll :
    LiveMediaDriver
    → Option PlaybackError
    → Option OpusFrame × OpusFrameQueue
    → Result RuntimeError LiveSourcePoll × LiveMediaDriver
poll d (some e) popped =
    (err (playback e), record d { source_buffer = record d.source_buffer { error = none } })
poll d none (some frame, queue) = (
  ok (record {
    frame = some (with_epoch frame d.playback_epoch);
    depth = depth queue;
    ended = false;
  }),
  report (source_depth (depth queue)) (with_queue d queue),
)
poll d none (none, queue) = (
  ok (record {
    frame = none;
    depth = depth queue;
    ended = d.source_buffer.end_of_stream && (length queue.inner == 0);
  }),
  report (source_depth (depth queue)) (with_queue d queue),
)

unfoldable pub pop_live_source_frame :
    LiveMediaDriver → Result RuntimeError LiveSourcePoll × LiveMediaDriver
pop_live_source_frame d = poll d d.source_buffer.error (pop d.source_buffer.queue)

unfoldable pub available_command_capacity : LiveMediaDriver → ℕ
available_command_capacity d = live_deadline_command_channel_capacity - length d.channel

-- `try_send_command`, where the deadline sender lives.
unfoldable pub try_send_command :
    PreparedPlayoutCommand → LiveMediaDriver → Result RuntimeError (Unit {0}) × LiveMediaDriver
unfolding available_command_capacity
try_send_command command d =
    if leb live_deadline_command_channel_capacity (length d.channel)
    then (err (invalid_state "deadline sender command channel full"), d)
    else (ok tt, record d { channel = d.channel ++ (command ∷ []) })
