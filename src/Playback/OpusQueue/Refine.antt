-- ===== src/Playback/OpusQueue/Refine.antt =====
-- opus_queue.rs: the queue behaves as a bounded double-ended list of frames with no counters.
use discord_voice_service.Common.{
  ℕ, ◌+◌, ◌≡◌, refl, ap, Bool, ◌&&◌, Option, none, some, List, [], ◌∷◌, ◌++◌, leb, ltb,
  if◌then◌else◌, length, arith, map, Result, ok, err,
}
use discord_voice_service.Playback.OpusFrame.{OpusFrame, byte_len}
use discord_voice_service.Playback.OpusQueue.{
  OpusFrameQueue, push, push_front, pop, pop_from, drop_stale_epoch, recalculate_depth, retag_epoch,
}
use discord_voice_service.Playback.OpusQueue.Invariant.{
  IsValid, total_bytes, total_samples, of_epoch, push-IsValid, push_front-IsValid, pop-IsValid,
  drop_stale_epoch_lem, retag_epoch-IsValid,
}

-- The limits of a queue, and the frames in it: all that a client can tell.
pub record Limits : Type 0 where
  pub packets : ℕ
  pub bytes : ℕ
  pub samples : ℕ

abbrev pub limits : OpusFrameQueue → Limits
limits q = record { packets = q.capacity; bytes = q.max_bytes; samples = q.max_duration_samples }

pub data Op : Type 0 where
  push_back_op : OpusFrame → Op
  push_front_op : OpusFrame → Op
  pop_op : Op
  drop_stale_op : ℕ → Op
  retag_op : ℕ → Op

-- What an operation answers.
pub data Reply : Type 0 where
  pushed : Result OpusFrame (Unit {0}) → Reply
  popped : Option OpusFrame → Reply
  done : Reply

abbrev fits : Limits → List OpusFrame → OpusFrame → Bool
fits l fs f =
    ltb (length fs) l.packets
    && leb (total_bytes fs + byte_len f) l.bytes
    && leb (total_samples fs + f.duration_samples) l.samples

spec_step : Limits → List OpusFrame → Op → Reply × List OpusFrame
spec_step l fs (push_back_op f) =
    if fits l fs f then (pushed (ok tt), fs ++ (f ∷ [])) else (pushed (err f), fs)
spec_step l fs (push_front_op f) =
    if fits l fs f then (pushed (ok tt), f ∷ fs) else (pushed (err f), fs)
spec_step l [] pop_op = (popped none, [])
spec_step l (f ∷ fs) pop_op = (popped (some f), fs)
spec_step l fs (drop_stale_op epoch) = (done, of_epoch epoch fs)
spec_step l fs (retag_op epoch) = (done, map (λ (f : OpusFrame). record f { epoch = epoch }) fs)

pub spec_run : Limits → List OpusFrame → List Op → List Reply
spec_run l fs [] = []
spec_run l fs (op ∷ ops) = let (r, fs') = spec_step l fs op in r ∷ spec_run l fs' ops

step : OpusFrameQueue → Op → Reply × OpusFrameQueue
step q (push_back_op f) = let (r, q') = push q f in (pushed r, q')
step q (push_front_op f) = let (r, q') = push_front q f in (pushed r, q')
step q pop_op = let (r, q') = pop q in (popped r, q')
step q (drop_stale_op epoch) = (done, drop_stale_epoch q epoch)
step q (retag_op epoch) = (done, retag_epoch q epoch)

pub run : OpusFrameQueue → List Op → List Reply
run q [] = []
run q (op ∷ ops) = let (r, q') = step q op in r ∷ run q' ops

step-IsValid : (q : OpusFrameQueue) (op : Op) → IsValid q → IsValid (step q op).1
unfolding step
step-IsValid q (push_back_op f) v = push-IsValid q f v
step-IsValid q (push_front_op f) v = push_front-IsValid q f v
step-IsValid q pop_op v = pop-IsValid q v
step-IsValid q (drop_stale_op epoch) v = (drop_stale_epoch_lem q epoch v).0
step-IsValid q (retag_op epoch) v = retag_epoch-IsValid q epoch v

step-limits : (q : OpusFrameQueue) (op : Op) → limits (step q op).1 ≡ limits q
unfolding step push push_front pop pop_from drop_stale_epoch recalculate_depth retag_epoch
step-limits q (push_back_op f) = ground arith
step-limits q (push_front_op f) = ground arith
step-limits q pop_op = ground arith
step-limits q (drop_stale_op epoch) = ground arith
step-limits q (retag_op epoch) = ground arith

pop_from_refines :
    (q : OpusFrameQueue) (fs : List OpusFrame)
    → q.inner ≡ fs
    → let (r, q') = pop_from q fs in (popped r, q'.inner) ≡ spec_step (limits q) fs pop_op
unfolding pop_from spec_step
pop_from_refines q [] e = rw e
pop_from_refines q (f ∷ fs) e = refl

-- One operation on a valid queue answers, and leaves the frames, as the list does.
step_refines :
    (q : OpusFrameQueue) (op : Op)
    → IsValid q
    → let (r, q') = step q op in (r, q'.inner) ≡ spec_step (limits q) q.inner op
unfolding step spec_step
step_refines q (push_back_op f) v = unfold push in ground arith
step_refines q (push_front_op f) v = unfold push_front in ground arith
step_refines q pop_op v = unfold pop in pop_from_refines q q.inner refl
step_refines q (drop_stale_op epoch) v = ap (λ fs. (done, fs)) (drop_stale_epoch_lem q epoch v).1
step_refines q (retag_op epoch) v = unfold retag_epoch in refl

-- Any run of pushes at either end, pops, epoch drops and retags on a valid queue answers as the
-- same run on a bounded list of frames, whose limits are computed from the frames themselves.
pub run_refines :
    (q : OpusFrameQueue) (ops : List Op) → IsValid q → run q ops ≡ spec_run (limits q) q.inner ops
unfolding run spec_run
run_refines q [] v = refl
run_refines q (op ∷ ops) v =
    rw
      (run_refines (step q op).1 ops (step-IsValid q op v), step-limits q op, ← step_refines q op v)
