-- ===== src/Runtime/Live/Draining.antt =====
-- Emptying the buffers of the driver before a flush.
use discord_voice_service.Common.{
  ℕ, zero, suc, ◌≡◌, ◌<◌, refl, ap, ap₂, ◌∙◌, List, [], ◌∷◌, ◌++◌, map, length, arith, ◌-◌,
}
use discord_voice_service.Playback.OpusFrame.{OpusFrame, byte_len}
use discord_voice_service.Playback.OpusQueue.{OpusFrameQueue, pop}
use discord_voice_service.Runtime.Playout.{
  PreparedTrackPlayout, PreparedPlayoutQueue, pop_prepared, playout_depth,
}
use discord_voice_service.Runtime.Live.QueueEvents.{
  EventReason, dropped_before_send, prepared_playout_queue_event,
}
use discord_voice_service.Runtime.Live.Driver.{LiveMediaDriver, queue_event, report}
use discord_voice_service.Runtime.Live.Flush.{drain_prepared, drain_buffer, drain_egress_frames}
use discord_voice_service.Runtime.Live.Pumping.{popped}

abbrev pub frame_of : PreparedTrackPlayout → OpusFrame
frame_of p = p.frame

drain_prepared_lem :
    (fuel : ℕ) (ps : List PreparedTrackPlayout) (reason : EventReason) (d : LiveMediaDriver)
    (q : PreparedPlayoutQueue)
    → length ps < fuel
    → let run =
        drain_prepared fuel reason
          (record d { prepared_playout_queue = record q { queue = ps } }) in
      (run.0 ≡ map frame_of ps)
      × (run.1.prepared_playout_queue.queue ≡ [])
      × (run.1.egress_buffer ≡ d.egress_buffer)
      × (run.1.source_buffer ≡ d.source_buffer)
unfolding drain_prepared pop_prepared
drain_prepared_lem zero ps reason d q enough = absurd (omega arith)
drain_prepared_lem (suc fuel) [] reason d q enough = (refl, refl, refl, refl)
drain_prepared_lem (suc fuel) (p ∷ ps) reason d q enough =
    let (frames, queue, egress, source) =
      drain_prepared_lem fuel ps reason
        (report
          (queue_event (
            prepared_playout_queue_event dropped_before_send reason p.command
              (playout_depth (popped q p ps))))
          d)
        (popped q p ps) (omega arith) in
    (ap (λ fs. p.frame ∷ fs) frames, queue, egress, source)

drain_buffer_lem :
    (fuel : ℕ) (fs : List OpusFrame) (q : OpusFrameQueue)
    → length fs < fuel
    → let run = drain_buffer fuel (record q { inner = fs }) in (run.0 ≡ fs) × (run.1.inner ≡ [])
unfolding drain_buffer pop
drain_buffer_lem zero fs q enough = absurd (omega arith)
drain_buffer_lem (suc fuel) [] q enough = (refl, refl)
drain_buffer_lem (suc fuel) (f ∷ fs) q enough =
    let (frames, empty) =
      drain_buffer_lem fuel fs
        (record q {
          duration_samples = q.duration_samples - f.duration_samples;
          bytes = q.bytes - byte_len f;
        })
        (omega arith) in
    (ap (λ l. f ∷ l) frames, empty)

-- The fuel is enough: draining takes all frames of the prepared packets and then all of the egress
-- buffer, in their orders, and leaves both queues empty and the source buffer as it is.
pub drain_egress_frames_lem :
    (reason : EventReason) (d : LiveMediaDriver)
    → let (frames, after) = drain_egress_frames reason d in
      (frames ≡ map frame_of d.prepared_playout_queue.queue ++ d.egress_buffer.inner)
      × (after.prepared_playout_queue.queue ≡ [])
      × (after.egress_buffer.inner ≡ [])
      × (after.source_buffer ≡ d.source_buffer)
unfolding drain_egress_frames
drain_egress_frames_lem reason d =
    let fuel = suc (length d.prepared_playout_queue.queue) in
    let middle = (drain_prepared fuel reason d).1 in
    let (prepared, queue, same_egress, same_source) =
      drain_prepared_lem fuel d.prepared_playout_queue.queue reason d d.prepared_playout_queue
        (omega arith) in
    let (buffered, empty) =
      drain_buffer_lem (suc (length middle.egress_buffer.inner)) middle.egress_buffer.inner
        middle.egress_buffer (omega arith) in
    (
      ap₂ (λ xs ys. xs ++ ys) prepared (buffered ∙ ap (λ q. q.inner) same_egress),
      queue,
      empty,
      same_source,
    )
