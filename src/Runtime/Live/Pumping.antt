-- ===== src/Runtime/Live/Pumping.antt =====
-- Pumping prepared packets to the deadline sender.
use discord_voice_service.Common.{
  ℕ, zero, suc, ◌+◌, ◌-◌, ◌<◌, ◌≡◌, refl, ◌∙◌, some, List, [], ◌∷◌, ◌++◌, map, append-nil,
  append_assoc, length, length-append, take, drop, ok, arith, le→ltb_false, lt→ltb, lt→leb_false,
}
use discord_voice_service.Runtime.DeadlineSender.{PreparedPlayoutCommand}
use discord_voice_service.Playback.OpusFrame.{byte_len}
use discord_voice_service.Runtime.Live.QueueEvents.{
  steady_playback, dequeued_to_deadline_sender, prepared_playout_queue_event,
}
use discord_voice_service.Runtime.Playout.{
  PreparedTrackPlayout, PreparedPlayoutQueue, pop_prepared, playout_depth,
}
use discord_voice_service.Runtime.Live.Pending.{PendingDeadlineCommand, new_pending}
use discord_voice_service.Runtime.Live.Driver.{
  LiveMediaDriver, queue_event, report, available_command_capacity, try_send_command,
}
use discord_voice_service.Runtime.Live.Accounting.{pump, pump_prepared_playout_to_deadline_sender}

abbrev pub pending_track : PreparedTrackPlayout → PendingDeadlineCommand
pending_track p = new_pending p.command (some p.frame)

abbrev pub command_of : PreparedTrackPlayout → PreparedPlayoutCommand
command_of p = p.command

-- A driver with these commands in the channel, these pending and these prepared packets.
abbrev with_queues :
    LiveMediaDriver
    → PreparedPlayoutQueue
    → List PreparedPlayoutCommand
    → List PendingDeadlineCommand
    → List PreparedTrackPlayout
    → LiveMediaDriver
with_queues d q channel pending prepared = record d {
  channel = channel;
  pending = pending;
  prepared_playout_queue = record q { queue = prepared };
}

abbrev pub popped :
    PreparedPlayoutQueue → PreparedTrackPlayout → List PreparedTrackPlayout → PreparedPlayoutQueue
popped q p rest = record {
  queue = rest;
  packets = q.packets - 1;
  bytes = q.bytes - byte_len p.frame;
  duration_samples = q.duration_samples - p.frame.duration_samples;
}

abbrev pub HasQueues :
    LiveMediaDriver
    → List PreparedPlayoutCommand
    → List PendingDeadlineCommand
    → List PreparedTrackPlayout
    → Type 0
HasQueues d channel pending prepared =
    (d.channel ≡ channel) × (d.pending ≡ pending) × (d.prepared_playout_queue.queue ≡ prepared)

pump-HasQueues :
    (fuel : ℕ) (ps : List PreparedTrackPlayout) (free : ℕ) (d : LiveMediaDriver)
    (q : PreparedPlayoutQueue) (channel : List PreparedPlayoutCommand)
    (pending : List PendingDeadlineCommand)
    → length channel + free ≡ 25
    → length ps < fuel
    → let run = pump fuel (with_queues d q channel pending ps) in
      (run.0 ≡ ok tt)
      × HasQueues run.1
          (channel ++ map command_of (take free ps))
          (pending ++ map pending_track (take free ps))
          (drop free ps)
unfolding pump available_command_capacity try_send_command pop_prepared
pump-HasQueues zero ps free d q channel pending room enough = absurd (omega arith)
pump-HasQueues (suc fuel) ps zero d q channel pending room enough =
    rw (le→ltb_false 0 (25 - length channel) (omega arith), append-nil channel, append-nil pending)
      (refl, (refl, refl, refl))
pump-HasQueues (suc fuel) [] (suc free) d q channel pending room enough =
    rw (lt→ltb 0 (25 - length channel) (omega arith), append-nil channel, append-nil pending)
      (refl, (refl, refl, refl))
pump-HasQueues (suc fuel) (p ∷ ps) (suc free) d q channel pending room enough =
    rw
      (lt→ltb 0 (25 - length channel) (omega arith), lt→leb_false 25 (length channel) (omega arith))
      (let (done, (in_channel, in_pending, prepared)) =
          pump-HasQueues fuel ps free
            (report
              (queue_event (
                prepared_playout_queue_event dequeued_to_deadline_sender steady_playback p.command
                  (playout_depth (popped q p ps))))
              d)
            (popped q p ps) (channel ++ (p.command ∷ [])) (pending ++ (pending_track p ∷ []))
            (omega (arith, length-append channel (p.command ∷ []))) (omega arith) in
        (
          done,
          (
            in_channel ∙ append_assoc channel (p.command ∷ []) (map command_of (take free ps)),
            in_pending
                ∙ append_assoc pending (pending_track p ∷ []) (map pending_track (take free ps)),
            prepared,
          ),
        ))

-- Pumping never fails, and moves as many of the prepared packets as there is room for in the channel
-- of the deadline sender, in their order, from the queue of prepared packets to the channel, each
-- remembered as pending with its frame.
pub pump_prepared_playout_lem :
    (d : LiveMediaDriver) (free : ℕ)
    → length d.channel + free ≡ 25
    → let run = pump_prepared_playout_to_deadline_sender d in
      let moved = take free d.prepared_playout_queue.queue in
      (run.0 ≡ ok tt)
      × HasQueues run.1
          (d.channel ++ map command_of moved)
          (d.pending ++ map pending_track moved)
          (drop free d.prepared_playout_queue.queue)
unfolding pump_prepared_playout_to_deadline_sender
pump_prepared_playout_lem d free room =
    pump-HasQueues (suc (length d.prepared_playout_queue.queue)) d.prepared_playout_queue.queue free
      d d.prepared_playout_queue d.channel d.pending room (omega arith)
