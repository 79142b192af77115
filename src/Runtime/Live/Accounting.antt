-- ===== src/Runtime/Live/Accounting.antt =====
-- Commands given to the deadline sender, and the records of what became of them.
use discord_voice_service.Common.{
  ℕ, zero, suc, ◌+◌, Bool, not, Option, none, some, List, [], ◌∷◌, ◌++◌, ltb, if◌then◌else◌, length,
  Result, ok, err, panic,
}
use discord_voice_service.Playback.OpusFrame.{OpusFrame}
use discord_voice_service.Playback.OpusQueue.{OpusFrameQueue, OpusBufferDepth, push_front}
use discord_voice_service.Runtime.Error.{RuntimeError, invalid_state}
use discord_voice_service.Runtime.DeadlineSender.{DeadlineSendRecord, DeadlineDropRecord}
use discord_voice_service.Runtime.Playout.{
  PreparedTrackPlayout, PreparedPlayoutQueue, pop_prepared, playout_depth,
}
use discord_voice_service.Runtime.Live.QueueEvents.{
  EventReason, steady_playback, interruption, dequeued_to_deadline_sender, dropped_before_send,
  prepared_playout_queue_event, dropped_prepared_playout_queue_event,
}
use discord_voice_service.Runtime.Live.Pending.{
  PendingDeadlineCommand, new_pending, matches_sent_record, matches_drop_record,
  pending_prepared_playout_queue_event,
}
use discord_voice_service.Runtime.Live.Driver.{
  queue_event, egress_depth, restored_source_frames, discarded_source_frames,
  egress_dropped_music_frames, sender_skipped_source_frames, LiveMediaDriver, report,
  remember_rebuild_credit, restore_live_source_frame, available_command_capacity, try_send_command,
}

pub data LiveDeadlineOutcome : Type 0 where
  sent : DeadlineSendRecord → LiveDeadlineOutcome
  dropped : DeadlineDropRecord → LiveDeadlineOutcome

abbrev pub Accounted : Type 0 → Type 0
Accounted A = Result RuntimeError A × LiveMediaDriver

-- A frame that no buffer takes is reported, as skipped only where a stop does not expect it.
abbrev report_lost : EventReason → OpusBufferDepth → OpusFrame → LiveMediaDriver → LiveMediaDriver
report_lost reason remaining_depth frame d =
    let skipped =
      if d.account_popped_frame_as_skipped_on_stop
      then d
      else report (sender_skipped_source_frames 1 frame.duration_samples remaining_depth) d in
    report (discarded_source_frames reason 1 frame.duration_samples)
      (report (egress_dropped_music_frames 1 frame.duration_samples) skipped)

abbrev keep : EventReason → OpusFrame → LiveMediaDriver → LiveMediaDriver
keep reason frame d =
    report (restored_source_frames 1 frame.duration_samples)
      (remember_rebuild_credit frame reason d)

abbrev after_source :
    EventReason
    → OpusBufferDepth
    → OpusFrame
    → Result OpusFrame OpusBufferDepth × LiveMediaDriver
    → LiveMediaDriver
after_source reason remaining_depth frame (ok depth, d) = keep reason frame d
after_source reason remaining_depth frame (err refused, d) =
    report_lost reason remaining_depth refused d
after_source reason remaining_depth frame (panic, d) = d

abbrev after_egress :
    EventReason
    → OpusBufferDepth
    → OpusFrame
    → LiveMediaDriver
    → Result OpusFrame (Unit {0}) × OpusFrameQueue
    → LiveMediaDriver
after_egress reason remaining_depth frame d (ok u, queue) =
    keep reason frame (record d { egress_buffer = queue })
after_egress reason remaining_depth frame d (err refused, queue) =
    after_source reason remaining_depth frame (restore_live_source_frame refused d)
after_egress reason remaining_depth frame d (panic, queue) = d

unfoldable pub account_unsent_egress_frame :
    OpusFrame → OpusBufferDepth → EventReason → LiveMediaDriver → LiveMediaDriver
account_unsent_egress_frame frame remaining_depth reason d =
    let d = after_egress reason remaining_depth frame d (push_front d.egress_buffer frame) in
    report (egress_depth (playout_depth d.prepared_playout_queue)) d

abbrev unsent_frame : Option OpusFrame → OpusBufferDepth → LiveMediaDriver → LiveMediaDriver
unsent_frame none remaining_depth d = d
unsent_frame (some frame) remaining_depth d =
    account_unsent_egress_frame frame remaining_depth interruption d

abbrev account_with :
    PendingDeadlineCommand
    → LiveDeadlineOutcome
    → OpusBufferDepth
    → LiveMediaDriver
    → Accounted (Option DeadlineSendRecord)
account_with p (sent r) remaining_depth d =
    if not (matches_sent_record p r)
    then (
      err (invalid_state "deadline sender committed a different prepared command than queued"),
      d,
    )
    else (ok (some r), d)
account_with p (dropped r) remaining_depth d =
    if not (matches_drop_record p r)
    then (err (invalid_state "deadline sender dropped a different prepared command than queued"), d)
    else (
      ok none,
      unsent_frame p.frame remaining_depth (
          report
            (queue_event (
              dropped_prepared_playout_queue_event interruption r
                (playout_depth d.prepared_playout_queue)))
            d),
    )

abbrev pub account_front :
    List PendingDeadlineCommand
    → LiveDeadlineOutcome
    → OpusBufferDepth
    → LiveMediaDriver
    → Accounted (Option DeadlineSendRecord)
account_front [] outcome remaining_depth d =
    (err (invalid_state "deadline sender emitted a record without a pending command"), d)
account_front (p ∷ ps) outcome remaining_depth d =
    account_with p outcome remaining_depth (record d { pending = ps })

unfoldable pub account_deadline_outcome :
    LiveDeadlineOutcome → OpusBufferDepth → LiveMediaDriver → Accounted (Option DeadlineSendRecord)
account_deadline_outcome outcome remaining_depth d =
    account_front d.pending outcome remaining_depth d

abbrev pub consed :
    Option DeadlineSendRecord
    → Accounted (List DeadlineSendRecord)
    → Accounted (List DeadlineSendRecord)
consed (some r) (ok rs, d) = (ok (r ∷ rs), d)
consed none (ok rs, d) = (ok rs, d)
consed found (err e, d) = (err e, d)
consed found (panic, d) = (panic, d)

abbrev pub drain_next :
    Accounted (Option DeadlineSendRecord)
    → (LiveMediaDriver → Accounted (List DeadlineSendRecord))
    → Accounted (List DeadlineSendRecord)
drain_next (ok found, d) rest = consed found (rest d)
drain_next (err e, d) rest = (err e, d)
drain_next (panic, d) rest = (panic, d)

-- The channels of the records, with what is ready in them, and whether the deadline sender has closed
-- them.
pub record ReadyOutcomes : Type 0 where
  pub send_records : List DeadlineSendRecord
  pub drop_records : List DeadlineDropRecord
  pub send_closed : Bool
  pub drop_closed : Bool

abbrev pub Polled : Type 0
Polled = Result RuntimeError (Option LiveDeadlineOutcome) × ReadyOutcomes

abbrev pub poll_dropped : ReadyOutcomes → List DeadlineDropRecord → Polled
poll_dropped ready (r ∷ rs) = (ok (some (dropped r)), record ready { drop_records = rs })
poll_dropped ready [] =
    if ready.drop_closed
    then (err (invalid_state "deadline sender drop record channel closed"), ready)
    else (ok none, ready)

abbrev pub poll_sent : ReadyOutcomes → List DeadlineSendRecord → Polled
poll_sent ready (r ∷ rs) = (ok (some (sent r)), record ready { send_records = rs })
poll_sent ready [] =
    if ready.send_closed
    then (err (invalid_state "deadline sender send record channel closed"), ready)
    else poll_dropped ready ready.drop_records

unfoldable pub try_next_outcome : ReadyOutcomes → Polled
try_next_outcome ready = poll_sent ready ready.send_records

-- A round of the loop.
abbrev pub drain_polled :
    OpusBufferDepth
    → LiveMediaDriver
    → Polled
    → (ReadyOutcomes → LiveMediaDriver → Accounted (List DeadlineSendRecord))
    → Accounted (List DeadlineSendRecord)
drain_polled remaining_depth d (ok none, ready) rest = (ok [], d)
drain_polled remaining_depth d (ok (some outcome), ready) rest =
    drain_next (account_deadline_outcome outcome remaining_depth d) (rest ready)
drain_polled remaining_depth d (err e, ready) rest = (err e, d)
drain_polled remaining_depth d (panic, ready) rest = (panic, d)

-- The loop, on fuel.
unfoldable pub drain_loop :
    ℕ → OpusBufferDepth → ReadyOutcomes → LiveMediaDriver → Accounted (List DeadlineSendRecord)
drain_loop zero remaining_depth ready d = (panic, d)
drain_loop (suc fuel) remaining_depth ready d =
    drain_polled remaining_depth d (try_next_outcome ready) (drain_loop fuel remaining_depth)

-- Over the outcomes that are ready when it begins.
unfoldable pub drain_ready_deadline_outcomes :
    ReadyOutcomes → OpusBufferDepth → LiveMediaDriver → Accounted (List DeadlineSendRecord)
drain_ready_deadline_outcomes ready remaining_depth d =
    drain_loop (suc (length ready.send_records + length ready.drop_records)) remaining_depth ready d

abbrev pumped :
    PendingDeadlineCommand
    → Result RuntimeError (Unit {0}) × LiveMediaDriver
    → (LiveMediaDriver → Accounted (Unit {0}))
    → Accounted (Unit {0})
pumped p (ok u, d) rest = rest (record d { pending = d.pending ++ (p ∷ []) })
pumped p (err e, d) rest = (err e, d)
pumped p (panic, d) rest = (panic, d)

abbrev pump_one :
    LiveMediaDriver
    → Option PreparedTrackPlayout × PreparedPlayoutQueue
    → (LiveMediaDriver → Accounted (Unit {0}))
    → Accounted (Unit {0})
pump_one d (none, queue) rest = (ok tt, d)
pump_one d (some prepared, queue) rest =
    let event =
      prepared_playout_queue_event dequeued_to_deadline_sender steady_playback prepared.command
        (playout_depth queue) in
    let d = report (queue_event event) (record d { prepared_playout_queue = queue }) in
    pumped (new_pending prepared.command (some prepared.frame))
      (try_send_command prepared.command d) rest

-- `pump_prepared_playout_to_deadline_sender`, on fuel.
unfoldable pub pump : ℕ → LiveMediaDriver → Accounted (Unit {0})
pump zero d = (ok tt, d)
pump (suc fuel) d =
    let rest = pump fuel in
    if ltb 0 (available_command_capacity d)
    then pump_one d (pop_prepared d.prepared_playout_queue) rest
    else (ok tt, d)

unfoldable pub pump_prepared_playout_to_deadline_sender : LiveMediaDriver → Accounted (Unit {0})
pump_prepared_playout_to_deadline_sender d = pump (suc (length d.prepared_playout_queue.queue)) d

abbrev frames_of : Option OpusFrame → List OpusFrame → List OpusFrame
frames_of none frames = frames
frames_of (some frame) frames = frame ∷ frames

-- The frames of the pending commands, each of which is reported.
unfoldable pub drain_pending :
    EventReason → List PendingDeadlineCommand → LiveMediaDriver → List OpusFrame × LiveMediaDriver
drain_pending reason [] d = ([], record d { pending = [] })
drain_pending reason (p ∷ ps) d =
    let event =
      pending_prepared_playout_queue_event dropped_before_send reason p
        (playout_depth d.prepared_playout_queue) in
    let (frames, last) = drain_pending reason ps (report (queue_event event) d) in
    (frames_of p.frame frames, last)

-- `replace_deadline_sender_after_invalidation`: the new deadline sender has an empty channel.
unfoldable pub replace_deadline_sender_after_invalidation :
    EventReason → LiveMediaDriver → List OpusFrame × LiveMediaDriver
replace_deadline_sender_after_invalidation reason d =
    drain_pending reason d.pending (record d { channel = [] })
