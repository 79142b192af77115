-- ===== src/Runtime/Live/Conservation.antt =====
-- No frame gets lost between the buffers unnoticed.
use mathlib.Core.List.{Perm, perm_middle}
use mathlib.Core.List.Perm
use discord_voice_service.Common.{
  ◌≡◌, ◌<◌, length, ◌⊎◌, inl, inr, refl, ap, subst, ◌∙◌, none, List, [], ◌∷◌, ◌++◌, append-nil,
  append_assoc, ok, err, Bool-cases, Option-cases, arith,
}
use discord_voice_service.Playback.OpusFrame.{OpusFrame}
use discord_voice_service.Playback.OpusQueue.{OpusFrameQueue, can_fit_frame, push, push_front}
use discord_voice_service.Runtime.Live.QueueEvents.{EventReason}
use discord_voice_service.Runtime.Live.Driver.{
  LiveMediaDriver, current_source_depth, restore_live_source_frame, remember_rebuild_credit,
}
use discord_voice_service.Runtime.Live.Flush.{
  Restoring, Returning, restore_interrupted_frames_to_egress_buffer, restore_one, return_frames,
  return_one, reversed, flush_frames, drain_egress_frames, returning_from, restoring_from,
  report_flush, flush_or_report, flush_egress_buffer_for_interruption,
}

-- A queue takes a frame or hands it back.
push-cases :
    (q : OpusFrameQueue) (f : OpusFrame)
    → ((longer : OpusFrameQueue) × (push q f ≡ (ok tt, longer))
        × (longer.inner ≡ q.inner ++ (f ∷ [])))
      ⊎ (push q f ≡ (err f, q))
unfolding push
push-cases q f = elim (Bool-cases (can_fit_frame q f)) [
  | inl e ↦ inl ((push q f).1, rw e refl, rw e refl)
  | inr e ↦ inr (rw e refl)
]

push_front-cases :
    (q : OpusFrameQueue) (f : OpusFrame)
    → ((longer : OpusFrameQueue) × (push_front q f ≡ (ok tt, longer))
        × (longer.inner ≡ f ∷ q.inner))
      ⊎ (push_front q f ≡ (err f, q))
unfolding push_front
push_front-cases q f = elim (Bool-cases (can_fit_frame q f)) [
  | inl e ↦ inl ((push_front q f).1, rw e refl, rw e refl)
  | inr e ↦ inr (rw e refl)
]

-- The frames of a restoring, in the egress buffer and still to be returned to the source.
abbrev kept : Restoring → List OpusFrame
kept r = r.egress_buffer.inner ++ r.source_restore_frames

-- A frame in the middle may as well stand at the end.
perm_snoc :
    (xs ys : List OpusFrame) (f : OpusFrame)
    → Perm ((xs ++ (f ∷ [])) ++ ys) ((xs ++ ys) ++ (f ∷ []))
perm_snoc xs ys f = rw (append_assoc xs (f ∷ []) ys) (
    Perm.trans (perm_middle xs ys) (
      Perm.symm (
        subst (λ l. Perm ((xs ++ ys) ++ (f ∷ [])) (f ∷ l)) (append-nil (xs ++ ys))
          (perm_middle (xs ++ ys) []))))

restore_one-Perm :
    (reason : EventReason) (f : OpusFrame) (r : Restoring)
    → Perm (kept (restore_one reason f r (push r.egress_buffer f))) (kept r ++ (f ∷ []))
restore_one-Perm reason f r = elim (push-cases r.egress_buffer f) [
  | inl (longer, taken, at_end) ↦
      rw taken (rw at_end (perm_snoc r.egress_buffer.inner r.source_restore_frames f))
  | inr refused ↦
      rw refused
        (rw (append_assoc r.egress_buffer.inner r.source_restore_frames (f ∷ [])) (Perm.refl _))
]

restore-Perm :
    (reason : EventReason) (frames : List OpusFrame) (r : Restoring)
    → Perm (kept (restore_interrupted_frames_to_egress_buffer reason frames r)) (kept r ++ frames)
unfolding restore_interrupted_frames_to_egress_buffer
restore-Perm reason [] r = rw (append-nil (kept r)) (Perm.refl (kept r))
restore-Perm reason (f ∷ fs) r =
    let next = restore_one reason f r (push r.egress_buffer f) in
    Perm.trans (restore-Perm reason fs next) (
      subst (λ l. Perm (kept next ++ fs) l) (append_assoc (kept r) (f ∷ []) fs)
        (Perm.append_right fs (restore_one-Perm reason f r)))

-- The frames that the source has and those that no buffer took.
abbrev returned : Returning → List OpusFrame
returned r = r.driver.source_buffer.queue.inner ++ r.lost

return_one-Perm :
    (reason : EventReason) (f : OpusFrame) (r : Returning)
    → Perm
        (returned (return_one reason f r (restore_live_source_frame f r.driver)))
        (f ∷ returned r)
unfolding restore_live_source_frame remember_rebuild_credit
return_one-Perm reason f r = elim (push_front-cases r.driver.source_buffer.queue f) [
  | inl (longer, taken, in_front) ↦ rw taken (rw in_front (Perm.refl _))
  | inr refused ↦ rw refused (
      subst (λ l. Perm l (f ∷ returned r))
        (append_assoc r.driver.source_buffer.queue.inner r.lost (f ∷ []))
        (subst (λ l. Perm (returned r ++ (f ∷ [])) (f ∷ l)) (append-nil (returned r))
          (perm_middle (returned r) [])))
]

return-Perm :
    (reason : EventReason) (frames : List OpusFrame) (r : Returning)
    → Perm (returned (return_frames reason frames r)) (frames ++ returned r)
unfolding return_frames
return-Perm reason [] r = Perm.refl (returned r)
return-Perm reason (f ∷ fs) r =
    Perm.trans
      (return-Perm reason fs (return_one reason f r (restore_live_source_frame f r.driver)))
      (Perm.trans (Perm.append_left fs (return_one-Perm reason f r)) (perm_middle fs (returned r)))

-- A driver with the same egress buffer.
return_one-egress :
    (reason : EventReason) (f : OpusFrame) (r : Returning)
    → (return_one reason f r (restore_live_source_frame f r.driver)).driver.egress_buffer
      ≡ r.driver.egress_buffer
unfolding restore_live_source_frame remember_rebuild_credit
return_one-egress reason f r = elim (push_front-cases r.driver.source_buffer.queue f) [
  | inl (longer, taken, in_front) ↦ rw taken refl
  | inr refused ↦ rw refused refl
]

return-egress :
    (reason : EventReason) (frames : List OpusFrame) (r : Returning)
    → (return_frames reason frames r).driver.egress_buffer ≡ r.driver.egress_buffer
unfolding return_frames
return-egress reason [] r = refl
return-egress reason (f ∷ fs) r =
    return-egress reason fs (return_one reason f r (restore_live_source_frame f r.driver))
    ∙ return_one-egress reason f r

reversed-Perm : (xs : List OpusFrame) → Perm (reversed xs) xs
reversed-Perm [] = Perm.refl []
reversed-Perm (x ∷ xs) =
    Perm.trans
      (subst (λ l. Perm (reversed xs ++ (x ∷ [])) (x ∷ l)) (append-nil (reversed xs))
        (perm_middle (reversed xs) []))
      (Perm.cons x (reversed-Perm xs))

abbrev pub buffers : Returning → List OpusFrame
buffers r = r.driver.egress_buffer.inner ++ (r.driver.source_buffer.queue.inner ++ r.lost)

-- What the second loop starts from has the buffers of before, and no error of the producer.
returning_from-buffers :
    (r : Restoring) (d : LiveMediaDriver)
    → ((returning_from r d).driver.egress_buffer ≡ r.egress_buffer)
      × (returned (returning_from r d) ≡ d.source_buffer.queue.inner)
      × ((returning_from r d).driver.source_buffer.error ≡ none)
unfolding returning_from current_source_depth
returning_from-buffers r d = elim (Option-cases d.source_buffer.error) [
  | inl e ↦ rw e (refl, append-nil d.source_buffer.queue.inner, refl)
  | inr (x, e) ↦ rw e (refl, append-nil d.source_buffer.queue.inner, refl)
]

combine :
    (egress restored last returned_frames refused refused_reversed source frames : List OpusFrame)
    → last ≡ restored
    → Perm returned_frames (refused_reversed ++ source)
    → Perm refused_reversed refused
    → Perm (restored ++ refused) (egress ++ frames)
    → Perm (last ++ returned_frames) ((egress ++ frames) ++ source)
combine egress restored last returned_frames refused refused_reversed source frames e back turned
      first =
    rw e (
      Perm.trans (Perm.append_left restored (Perm.trans back (Perm.append_right source turned))) (
        subst (λ l. Perm l ((egress ++ frames) ++ source)) (append_assoc restored refused source)
          (Perm.append_right source first)))

-- A flush of `frames` keeps every frame: what the egress buffer and the source buffer held and the
-- frames are, in some order, what the two buffers hold afterwards and the frames that neither of them
-- took.
pub flush_frames-conserves :
    (reason : EventReason) (frames : List OpusFrame) (d : LiveMediaDriver)
    → Perm
        (buffers (flush_frames reason frames d))
        ((d.egress_buffer.inner ++ frames) ++ d.source_buffer.queue.inner)
unfolding flush_frames
flush_frames-conserves reason frames d =
    let r = restore_interrupted_frames_to_egress_buffer reason frames (restoring_from d) in
    let refused = reversed r.source_restore_frames in
    let start = returning_from r d in
    let (same_egress, same_source, no_error) = returning_from-buffers r d in
    let back = return-Perm reason refused start in
    let first = restore-Perm reason frames (restoring_from d) in
    combine d.egress_buffer.inner r.egress_buffer.inner
      (return_frames reason refused start).driver.egress_buffer.inner
      (returned (return_frames reason refused start)) r.source_restore_frames refused
      d.source_buffer.queue.inner frames
      (ap (λ q. q.inner) (return-egress reason refused start ∙ same_egress))
      (subst (λ l. Perm (returned (return_frames reason refused start)) (refused ++ l)) same_source
        back)
      (reversed-Perm r.source_restore_frames)
      (subst (λ l. Perm (kept r) (l ++ frames)) (append-nil d.egress_buffer.inner) first)

return_one-error :
    (reason : EventReason) (f : OpusFrame) (r : Returning)
    → (return_one reason f r (restore_live_source_frame f r.driver)).driver.source_buffer.error
      ≡ r.driver.source_buffer.error
unfolding restore_live_source_frame remember_rebuild_credit
return_one-error reason f r = elim (push_front-cases r.driver.source_buffer.queue f) [
  | inl (longer, taken, in_front) ↦ rw taken refl
  | inr refused ↦ rw refused refl
]

return-error :
    (reason : EventReason) (frames : List OpusFrame) (r : Returning)
    → (return_frames reason frames r).driver.source_buffer.error ≡ r.driver.source_buffer.error
unfolding return_frames
return-error reason [] r = refl
return-error reason (f ∷ fs) r =
    return-error reason fs (return_one reason f r (restore_live_source_frame f r.driver))
    ∙ return_one-error reason f r

report_flush-error :
    (reason : EventReason) (r : Returning)
    → (report_flush reason r).source_buffer.error ≡ r.driver.source_buffer.error
report_flush-error reason r = ground arith

flush_or_report-error :
    (reason : EventReason) (frames : List OpusFrame) (d : LiveMediaDriver)
    → 0 < length frames
    → (flush_or_report reason frames d).source_buffer.error ≡ none
unfolding flush_frames
flush_or_report-error reason [] d h = absurd (omega arith)
flush_or_report-error reason (f ∷ frames) d h =
    let r = restore_interrupted_frames_to_egress_buffer reason (f ∷ frames) (restoring_from d) in
    let refused = reversed r.source_restore_frames in
    report_flush-error reason (return_frames reason refused (returning_from r d))
    ∙ return-error reason refused (returning_from r d)
    ∙ (returning_from-buffers r d).2

-- A flush that has any frame to put back, given to it or drained from the prepared queue or the egress
-- buffer, leaves no error in the source buffer, whatever error the producer of frames had left there,
-- and it has no result to report one with.
pub flush_egress_buffer-forgets_error :
    (reason : EventReason) (frames : List OpusFrame) (d : LiveMediaDriver)
    → 0 < length (frames ++ (drain_egress_frames reason d).0)
    → (flush_egress_buffer_for_interruption reason frames d).source_buffer.error ≡ none
unfolding flush_egress_buffer_for_interruption
flush_egress_buffer-forgets_error reason frames d some_frame =
    flush_or_report-error reason (frames ++ (drain_egress_frames reason d).0)
      (drain_egress_frames reason d).1 some_frame
