-- ===== src/Playback/Worker/Ordering.antt =====
-- worker.rs: the order of the frames on their way to the queue.
use mathlib.Core.List.{Perm, perm_middle}
use mathlib.Core.List.Perm
use discord_voice_service.Common.{
  ◌≡◌, refl, sym, ap, ◌∙◌, inl, inr, true, false, List, [], ◌∷◌, ◌++◌, ok, err, panic, arith,
  Bool-cases, append_assoc, append-nil,
}
use discord_voice_service.Playback.OpusFrame.{OpusFrame}
use discord_voice_service.Playback.OpusQueue.{OpusFrameQueue, can_fit_frame, push}
use discord_voice_service.Playback.Worker.{Drained, Enqueued, drain_pending_frames, enqueue_frames}

-- The queue after a frame that it has room for.
unfoldable pub pushed : OpusFrameQueue → OpusFrame → OpusFrameQueue
unfolding push
pushed queue frame = (push queue frame).1

push-fits :
    (queue : OpusFrameQueue) (frame : OpusFrame)
    → can_fit_frame queue frame ≡ true
    → push queue frame ≡ (ok tt, pushed queue frame)
unfolding pushed
push-fits queue frame fits = ground arith

inner-pushed :
    (queue : OpusFrameQueue) (frame : OpusFrame)
    → can_fit_frame queue frame ≡ true
    → (pushed queue frame).inner ≡ queue.inner ++ (frame ∷ [])
unfolding pushed
inner-pushed queue frame fits = ground arith

abbrev StartsUnfit : List OpusFrame → OpusFrameQueue → Type 0
StartsUnfit [] queue = ⊥
StartsUnfit (frame ∷ frames) queue = can_fit_frame queue frame ≡ false

-- What waits goes into the queue in its order, up to the first frame that has no room.
abbrev pub DrainsInOrder : OpusFrameQueue → List OpusFrame → Drained → Type 0
DrainsInOrder queue frames (ok true, pending, queue') =
    (pending ≡ []) × (queue'.inner ≡ queue.inner ++ frames)
DrainsInOrder queue frames (ok false, pending, queue') =
    (queue'.inner ++ pending ≡ queue.inner ++ frames) × StartsUnfit pending queue'
DrainsInOrder queue frames _ = ⊥

DrainsInOrder-cons :
    (queue queue' : OpusFrameQueue) (frame : OpusFrame) (frames : List OpusFrame)
    (drained : Drained)
    → queue'.inner ≡ queue.inner ++ (frame ∷ [])
    → DrainsInOrder queue' frames drained
    → DrainsInOrder queue (frame ∷ frames) drained
DrainsInOrder-cons queue queue' frame frames (ok true, pending, q) e (none_left, same) =
    (none_left, same ∙ ap (λ l. l ++ frames) e ∙ append_assoc queue.inner (frame ∷ []) frames)
DrainsInOrder-cons queue queue' frame frames (ok false, pending, q) e (same, unfit) =
    (same ∙ ap (λ l. l ++ frames) e ∙ append_assoc queue.inner (frame ∷ []) frames, unfit)
DrainsInOrder-cons queue queue' frame frames (err x, pending, q) e h = h
DrainsInOrder-cons queue queue' frame frames (panic, pending, q) e h = h

-- The frames that wait go to the back of the queue in their order and none is lost, refused or passed
-- by: either all are queued, or those from the first without room on still wait.
pub drain_pending_frames-DrainsInOrder :
    (frames : List OpusFrame) (queue : OpusFrameQueue)
    → DrainsInOrder queue frames (drain_pending_frames frames queue)
unfolding drain_pending_frames
drain_pending_frames-DrainsInOrder [] queue = (refl, sym (append-nil queue.inner))
drain_pending_frames-DrainsInOrder (frame ∷ frames) queue =
    elim (Bool-cases (can_fit_frame queue frame)) [
      | inl fits ↦
          rw (fits, push-fits queue frame fits)
            (DrainsInOrder-cons queue (pushed queue frame) frame frames _
              (inner-pushed queue frame fits)
              (drain_pending_frames-DrainsInOrder frames (pushed queue frame)))
      | inr full ↦ rw full (refl, full)
    ]

-- Every frame is in the queue or still waits.
abbrev pub Conserves : OpusFrameQueue → List OpusFrame → List OpusFrame → Enqueued → Type 0
Conserves queue pending frames (ok u, pending', queue') =
    Perm (queue'.inner ++ pending') ((queue.inner ++ pending) ++ frames)
Conserves queue pending frames _ = ⊥

Perm-insert :
    (xs ys zs : List OpusFrame) (frame : OpusFrame)
    → Perm (((xs ++ (frame ∷ [])) ++ ys) ++ zs) ((xs ++ ys) ++ (frame ∷ zs))
Perm-insert xs ys zs frame =
    Perm.trans
      (rw (append_assoc xs (frame ∷ []) ys, append_assoc xs (frame ∷ ys) zs, append_assoc xs ys zs)
        (perm_middle xs (ys ++ zs)))
      (Perm.symm (perm_middle (xs ++ ys) zs))

Conserves-cons :
    (queue queue' : OpusFrameQueue) (pending pending' frames : List OpusFrame) (frame : OpusFrame)
    (result : Enqueued)
    → Perm ((queue'.inner ++ pending') ++ frames) ((queue.inner ++ pending) ++ (frame ∷ frames))
    → Conserves queue' pending' frames result
    → Conserves queue pending (frame ∷ frames) result
Conserves-cons queue queue' pending pending' frames frame (ok u, rest, q) e h = Perm.trans h e
Conserves-cons queue queue' pending pending' frames frame (err x, rest, q) e h = h
Conserves-cons queue queue' pending pending' frames frame (panic, rest, q) e h = h

-- The frames of a packet are all queued or put to those that wait, none twice, and the queue refuses
-- none that it was offered.
pub enqueue_frames-Conserves :
    (frames pending : List OpusFrame) (queue : OpusFrameQueue)
    → Conserves queue pending frames (enqueue_frames frames pending queue)
unfolding enqueue_frames
enqueue_frames-Conserves [] pending queue = rw (append-nil (queue.inner ++ pending)) (Perm.refl _)
enqueue_frames-Conserves (frame ∷ frames) pending queue =
    elim (Bool-cases (can_fit_frame queue frame)) [
      | inl fits ↦
          rw (fits, push-fits queue frame fits)
            (Conserves-cons queue (pushed queue frame) pending pending frames frame _
              (rw (inner-pushed queue frame fits) (Perm-insert queue.inner pending frames frame))
              (enqueue_frames-Conserves frames pending (pushed queue frame)))
      | inr full ↦ rw full (
          Conserves-cons queue queue pending (pending ++ (frame ∷ [])) frames frame _
            (rw
              (
                ← append_assoc queue.inner pending (frame ∷ []),
                append_assoc (queue.inner ++ pending) (frame ∷ []) frames,
              )
              (Perm.refl _))
            (enqueue_frames-Conserves frames (pending ++ (frame ∷ [])) queue))
    ]

-- A frame that has no room is passed by a later one of the same packet that has: with nothing waiting,
-- the first stays behind, and the second is queued and so is played before it.
pub enqueue_frames-passes_by :
    (queue : OpusFrameQueue) (first second : OpusFrame)
    → can_fit_frame queue first ≡ false
    → can_fit_frame queue second ≡ true
    → enqueue_frames (first ∷ second ∷ []) [] queue ≡ (ok tt, first ∷ [], pushed queue second)
unfolding enqueue_frames
enqueue_frames-passes_by queue first second full fits = rw (full, fits, push-fits queue second fits)
