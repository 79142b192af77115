-- ===== src/Playback/OpusQueue/Invariant.antt =====
-- opus_queue.rs: the counters of the queue agree with its frames, and stay inside the limits.
use discord_voice_service.Common.{
  ℕ, ◌+◌, ◌*◌, ◌≤◌, ◌<◌, ◌≡◌, refl, sym, ap, true, false, List, [], ◌∷◌, ◌++◌, append-nil,
  append_assoc, ◌==◌, if◌then◌else◌, length, length-append, arith, map, Bool-cases, inl, inr,
}
use discord_voice_service.Common.Words.{u64_max, saturating_add}
use discord_voice_service.Playback.OpusFrame.{OpusFrame, byte_len, samples_from_duration_ms_u64}
use discord_voice_service.Playback.OpusQueue.{
  OpusFrameQueue, with_resource_limits, can_fit_frame, push, push_front, pop, pop_from, recount,
  recalculate_depth, retain_epoch, drop_stale_epoch, retag_epoch, is_full,
}

abbrev pub total_bytes : List OpusFrame → ℕ
total_bytes [] = 0
total_bytes (f ∷ rest) = byte_len f + total_bytes rest

abbrev pub total_samples : List OpusFrame → ℕ
total_samples [] = 0
total_samples (f ∷ rest) = f.duration_samples + total_samples rest

pub record IsValid (q : OpusFrameQueue) : Type 0 where
  pub packets_fit : length q.inner ≤ q.capacity
  pub bytes_exact : q.bytes ≡ total_bytes q.inner
  pub samples_exact : q.duration_samples ≡ total_samples q.inner
  pub bytes_fit : q.bytes ≤ q.max_bytes
  pub samples_fit : q.duration_samples ≤ q.max_duration_samples
  pub bytes_limited : q.max_bytes < u64_max
  pub samples_limited : q.max_duration_samples < u64_max

pub total_bytes-append :
    (xs ys : List OpusFrame) → total_bytes (xs ++ ys) ≡ total_bytes xs + total_bytes ys
total_bytes-append [] ys = omega arith
total_bytes-append (x ∷ xs) ys = omega (arith, total_bytes-append xs ys)

pub total_samples-append :
    (xs ys : List OpusFrame) → total_samples (xs ++ ys) ≡ total_samples xs + total_samples ys
total_samples-append [] ys = omega arith
total_samples-append (x ∷ xs) ys = omega (arith, total_samples-append xs ys)

-- A queue starts valid, if neither limit is the largest word.
pub with_resource_limits-IsValid :
    (capacity max_bytes max_duration_ms : ℕ)
    → max_bytes < u64_max
    → max_duration_ms * 48 < u64_max
    → IsValid (with_resource_limits capacity max_bytes max_duration_ms)
unfolding with_resource_limits samples_from_duration_ms_u64
with_resource_limits-IsValid c b d hb hd = omega arith

-- `push` keeps the counters exact and the limits kept, whether it takes the frame or not.
pub push-IsValid : (q : OpusFrameQueue) (f : OpusFrame) → IsValid q → IsValid (push q f).1
unfolding push
push-IsValid q f v = ground (
  arith,
  length-append q.inner (f ∷ []),
  total_bytes-append q.inner (f ∷ []),
  total_samples-append q.inner (f ∷ []),
)

pub push_front-IsValid :
    (q : OpusFrameQueue) (f : OpusFrame) → IsValid q → IsValid (push_front q f).1
unfolding push_front
push_front-IsValid q f v = ground arith

pop_from-IsValid :
    (q : OpusFrameQueue) (xs : List OpusFrame)
    → q.inner ≡ xs
    → IsValid q
    → IsValid (pop_from q xs).1
unfolding pop_from
pop_from-IsValid q [] e v = v
pop_from-IsValid q (f ∷ rest) e v =
    ground (arith, ap length e, ap total_bytes e, ap total_samples e)

pub pop-IsValid : (q : OpusFrameQueue) → IsValid q → IsValid (pop q).1
unfolding pop
pop-IsValid q v = pop_from-IsValid q q.inner refl v

-- The frames of one epoch, in order: what `drop_stale_epoch` leaves.
abbrev pub of_epoch : ℕ → List OpusFrame → List OpusFrame
of_epoch epoch [] = []
of_epoch epoch (f ∷ rest) =
    if f.epoch == epoch then f ∷ of_epoch epoch rest else of_epoch epoch rest

pub retain_epoch_lem :
    (epoch : ℕ) (retained xs : List OpusFrame)
    → retain_epoch epoch retained xs ≡ retained ++ of_epoch epoch xs
unfolding retain_epoch
retain_epoch_lem epoch retained [] = sym (append-nil retained)
retain_epoch_lem epoch retained (f ∷ rest) = elim (Bool-cases (f.epoch == epoch)) [
  | inl same ↦ rw (same, retain_epoch_lem epoch (retained ++ (f ∷ [])) rest, append_assoc)
  | inr other ↦ rw (other, retain_epoch_lem epoch retained rest)
]

of_epoch_le :
    (epoch : ℕ) (xs : List OpusFrame)
    → (length (of_epoch epoch xs) ≤ length xs)
      × (total_bytes (of_epoch epoch xs) ≤ total_bytes xs)
      × (total_samples (of_epoch epoch xs) ≤ total_samples xs)
of_epoch_le epoch [] = omega arith
of_epoch_le epoch (f ∷ rest) = ground (arith, of_epoch_le epoch rest)

recount_lem :
    (d b : ℕ) (xs : List OpusFrame)
    → d + total_samples xs < u64_max
    → b + total_bytes xs < u64_max
    → recount d b xs ≡ (d + total_samples xs, b + total_bytes xs)
unfolding recount
recount_lem d b [] hd hb = ground arith
recount_lem d b (f ∷ rest) hd hb =
    ground (
      arith,
      recount_lem (saturating_add d f.duration_samples) (saturating_add b (byte_len f)) rest,
    )

-- `drop_stale_epoch` keeps exactly the frames of the epoch, in order, and recounts them exactly.
pub drop_stale_epoch_lem :
    (q : OpusFrameQueue) (epoch : ℕ)
    → IsValid q
    → IsValid (drop_stale_epoch q epoch)
      × ((drop_stale_epoch q epoch).inner ≡ of_epoch epoch q.inner)
unfolding drop_stale_epoch recalculate_depth
drop_stale_epoch_lem q epoch v =
    let kept = of_epoch epoch q.inner in
    let (fewer, lighter, shorter) = of_epoch_le epoch q.inner in
    rw (retain_epoch_lem epoch [] q.inner, recount_lem 0 0 kept (omega arith) (omega arith))
      (omega arith, refl)

retag-totals :
    (epoch : ℕ) (xs : List OpusFrame)
    → let ys = map (λ (f : OpusFrame). record f { epoch = epoch }) xs in
      (length ys ≡ length xs)
      × (total_bytes ys ≡ total_bytes xs)
      × (total_samples ys ≡ total_samples xs)
retag-totals epoch [] = omega arith
retag-totals epoch (f ∷ rest) = omega (arith, retag-totals epoch rest)

pub retag_epoch-IsValid :
    (q : OpusFrameQueue) (epoch : ℕ) → IsValid q → IsValid (retag_epoch q epoch)
unfolding retag_epoch
retag_epoch-IsValid q epoch v = omega (arith, retag-totals epoch q.inner)

-- A valid queue that can take some frame of positive size and duration does not say that it is full.
pub is_full_lem :
    (q : OpusFrameQueue) (f : OpusFrame)
    → IsValid q
    → 0 < byte_len f
    → 0 < f.duration_samples
    → can_fit_frame q f ≡ true
    → is_full q ≡ false
unfolding can_fit_frame is_full
is_full_lem q f v hb hd h = ground arith
