-- ===== src/Runtime/Live/Flush.antt =====
-- What the driver does with frames that were prepared and not sent: they go back to the egress buffer
-- and, from its end, to the source buffer.
use discord_voice_service.Common.{
  ℕ, zero, suc, Bool, true, false, Option, none, some, List, [], ◌∷◌, ◌++◌, ltb, if◌then◌else◌,
  length, Result, ok, err, panic,
}
use discord_voice_service.Common.Words.{saturating_add}
use discord_voice_service.Playback.OpusFrame.{OpusFrame}
use discord_voice_service.Playback.OpusQueue.{OpusFrameQueue, OpusBufferDepth, push, pop}
use discord_voice_service.Runtime.Error.{RuntimeError}
use discord_voice_service.Runtime.Playout.{
  PreparedTrackPlayout, PreparedPlayoutQueue, pop_prepared, playout_depth,
}
use discord_voice_service.Runtime.Live.QueueEvents.{
  EventReason, dropped_before_send, prepared_playout_queue_event,
}
use discord_voice_service.Runtime.Live.Pending.{default_depth}
use discord_voice_service.Runtime.Live.Driver.{
  PlaybackPipelineMetric, queue_event, egress_depth, restored_source_frames,
  discarded_source_frames, egress_dropped_music_frames, sender_skipped_source_frames,
  LiveMediaDriver, PreparedFrameRebuildCredit, report, credit, remember_rebuild_credit,
  current_source_depth, restore_live_source_frame,
}

-- How many frames, and samples in them.
pub record Count : Type 0 where
  pub frames : ℕ
  pub samples : ℕ

abbrev pub no_frames : Count
no_frames = record { frames = 0; samples = 0 }

unfoldable pub count_frame : Count → OpusFrame → Count
count_frame c frame = record {
  frames = saturating_add c.frames 1;
  samples = saturating_add c.samples frame.duration_samples;
}

-- What `restore_interrupted_frames_to_egress_buffer` changes and returns.
pub record Restoring : Type 0 where
  pub egress_buffer : OpusFrameQueue
  pub credits : List PreparedFrameRebuildCredit
  pub restored : Count
  pub source_restore_frames : List OpusFrame

abbrev pub restore_one :
    EventReason → OpusFrame → Restoring → Result OpusFrame (Unit {0}) × OpusFrameQueue → Restoring
restore_one reason frame r (ok u, queue) = record r {
  egress_buffer = queue;
  credits = r.credits ++ (credit reason frame ∷ []);
  restored = count_frame r.restored frame;
}
restore_one reason frame r (err refused, queue) = record r {
  source_restore_frames = r.source_restore_frames ++ (refused ∷ []);
}
restore_one reason frame r (panic, queue) = r

unfoldable pub restore_interrupted_frames_to_egress_buffer :
    EventReason → List OpusFrame → Restoring → Restoring
restore_interrupted_frames_to_egress_buffer reason [] r = r
restore_interrupted_frames_to_egress_buffer reason (frame ∷ frames) r =
    restore_interrupted_frames_to_egress_buffer reason frames
      (restore_one reason frame r (push r.egress_buffer frame))

-- The second loop of `flush_egress_buffer_for_interruption`, over the frames from the last on.
pub record Returning : Type 0 where
  pub driver : LiveMediaDriver
  pub restored : Count
  pub discarded : Count
  pub skipped : Count
  pub remaining_depth : OpusBufferDepth
  -- The frames that no buffer takes.
  pub lost : List OpusFrame

abbrev pub return_one :
    EventReason
    → OpusFrame
    → Returning
    → Result OpusFrame OpusBufferDepth × LiveMediaDriver
    → Returning
return_one reason frame r (ok depth, d) = record r {
  driver = remember_rebuild_credit frame reason d;
  restored = count_frame r.restored frame;
  remaining_depth = depth;
}
return_one reason frame r (err refused, d) = record r {
  driver = d;
  discarded = count_frame r.discarded refused;
  skipped =
      if d.account_popped_frame_as_skipped_on_stop
      then r.skipped
      else count_frame r.skipped refused;
  lost = r.lost ++ (refused ∷ []);
}
return_one reason frame r (panic, d) = r

unfoldable pub return_frames : EventReason → List OpusFrame → Returning → Returning
return_frames reason [] r = r
return_frames reason (frame ∷ frames) r =
    return_frames reason frames
      (return_one reason frame r (restore_live_source_frame frame r.driver))

abbrev pub reversed {ℓ} : {A : Type ℓ} → List A → List A
reversed [] = []
reversed (x ∷ xs) = reversed xs ++ (x ∷ [])

abbrev drained_one :
    EventReason
    → LiveMediaDriver
    → Option PreparedTrackPlayout × PreparedPlayoutQueue
    → (LiveMediaDriver → List OpusFrame × LiveMediaDriver)
    → List OpusFrame × LiveMediaDriver
drained_one reason d (none, queue) rest = ([], d)
drained_one reason d (some prepared, queue) rest =
    let after = record d { prepared_playout_queue = queue } in
    let event =
      prepared_playout_queue_event dropped_before_send reason prepared.command
        (playout_depth queue) in
    let (frames, last) = rest (report (queue_event event) after) in (prepared.frame ∷ frames, last)

-- The first loop of `drain_egress_frames`, on fuel.
unfoldable pub drain_prepared : ℕ → EventReason → LiveMediaDriver → List OpusFrame × LiveMediaDriver
drain_prepared zero reason d = ([], d)
drain_prepared (suc fuel) reason d =
    drained_one reason d (pop_prepared d.prepared_playout_queue) (drain_prepared fuel reason)

abbrev popped_one :
    Option OpusFrame × OpusFrameQueue
    → (OpusFrameQueue → List OpusFrame × OpusFrameQueue)
    → List OpusFrame × OpusFrameQueue
popped_one (none, queue) rest = ([], queue)
popped_one (some frame, queue) rest = let (frames, last) = rest queue in (frame ∷ frames, last)

-- The second loop.
unfoldable pub drain_buffer : ℕ → OpusFrameQueue → List OpusFrame × OpusFrameQueue
drain_buffer zero q = ([], q)
drain_buffer (suc fuel) q = popped_one (pop q) (drain_buffer fuel)

unfoldable pub drain_egress_frames :
    EventReason → LiveMediaDriver → List OpusFrame × LiveMediaDriver
drain_egress_frames reason d =
    let (prepared, d) = drain_prepared (suc (length d.prepared_playout_queue.queue)) reason d in
    let (buffered, queue) = drain_buffer (suc (length d.egress_buffer.inner)) d.egress_buffer in
    (prepared ++ buffered, record d { egress_buffer = queue })

abbrev report_if : Bool → PlaybackPipelineMetric → LiveMediaDriver → LiveMediaDriver
report_if true metric d = report metric d
report_if false metric d = d

-- `current_source_depth(…).unwrap_or_default()`: an error is taken and forgotten.
abbrev pub or_default :
    Result RuntimeError OpusBufferDepth × LiveMediaDriver → OpusBufferDepth × LiveMediaDriver
or_default (ok depth, d) = (depth, d)
or_default (err e, d) = (default_depth, d)
or_default (panic, d) = (default_depth, d)

-- What is reported after the loops.
abbrev pub report_flush : EventReason → Returning → LiveMediaDriver
report_flush reason r =
    let d =
      report_if (ltb 0 r.skipped.frames)
        (sender_skipped_source_frames r.skipped.frames r.skipped.samples r.remaining_depth)
        r.driver in
    let d =
      report_if (ltb 0 r.restored.frames)
        (restored_source_frames r.restored.frames r.restored.samples) d in
    let d =
      report_if (ltb 0 r.discarded.frames)
        (discarded_source_frames reason r.discarded.frames r.discarded.samples) d in
    let d =
      report_if (ltb 0 r.discarded.frames)
        (egress_dropped_music_frames r.discarded.frames r.discarded.samples) d in
    report (egress_depth (playout_depth d.prepared_playout_queue)) d

abbrev pub restoring_from : LiveMediaDriver → Restoring
restoring_from d = record {
  egress_buffer = d.egress_buffer;
  credits = d.prepared_rebuild_credits;
  restored = no_frames;
  source_restore_frames = [];
}

-- What the second loop starts from.
unfoldable pub returning_from : Restoring → LiveMediaDriver → Returning
returning_from r d =
    let (depth, d) = or_default (
      current_source_depth
        (record d { egress_buffer = r.egress_buffer; prepared_rebuild_credits = r.credits })) in
    record {
      driver = d;
      restored = r.restored;
      discarded = no_frames;
      skipped = no_frames;
      remaining_depth = depth;
      lost = [];
    }

-- The two loops of a flush, of frames that are not empty: those that the egress buffer refuses go back
-- to the front of the source, the last of them first.
unfoldable pub flush_frames : EventReason → List OpusFrame → LiveMediaDriver → Returning
unfolding returning_from
flush_frames reason frames d =
    let r = restore_interrupted_frames_to_egress_buffer reason frames (restoring_from d) in
    return_frames reason (reversed r.source_restore_frames) (returning_from r d)

abbrev pub flush_or_report : EventReason → List OpusFrame → LiveMediaDriver → LiveMediaDriver
flush_or_report reason [] d = report (egress_depth (playout_depth d.prepared_playout_queue)) d
flush_or_report reason (frame ∷ frames) d =
    report_flush reason (flush_frames reason (frame ∷ frames) d)

unfoldable pub flush_egress_buffer_for_interruption :
    EventReason → List OpusFrame → LiveMediaDriver → LiveMediaDriver
flush_egress_buffer_for_interruption reason frames d =
    let (drained, d) = drain_egress_frames reason d in flush_or_report reason (frames ++ drained) d
