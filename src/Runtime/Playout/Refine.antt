-- ===== src/Runtime/Playout/Refine.antt =====
-- runtime.rs: the queue of prepared packets holds what its counters say, and answers as a bounded list.
use discord_voice_service.Common.{
  ℕ, ◌+◌, ◌≤◌, ◌≡◌, refl, ap, Bool, ◌&&◌, Option, none, some, List, [], ◌∷◌, ◌++◌, ltb, leb,
  if◌then◌else◌, length, length-append, Result, ok, err, arith,
}
use discord_voice_service.Playback.OpusFrame.{byte_len, samples_from_duration_ms_u64}
use discord_voice_service.Runtime.Playout.{
  PreparedTrackPlayout, PreparedPlayoutQueue, new_playout_queue, enqueue, push_prepared,
  pop_prepared_from, pop_prepared,
}

abbrev total_bytes : List PreparedTrackPlayout → ℕ
total_bytes [] = 0
total_bytes (p ∷ rest) = byte_len p.frame + total_bytes rest

abbrev total_samples : List PreparedTrackPlayout → ℕ
total_samples [] = 0
total_samples (p ∷ rest) = p.frame.duration_samples + total_samples rest

record IsCounted (q : PreparedPlayoutQueue) : Type 0 where
  packets_exact : q.packets ≡ length q.queue
  bytes_exact : q.bytes ≡ total_bytes q.queue
  samples_exact : q.duration_samples ≡ total_samples q.queue
  packets_fit : q.packets ≤ 1_024
  bytes_fit : q.bytes ≤ 4_194_304
  samples_fit : q.duration_samples ≤ 24_000

total_bytes-append :
    (xs : List PreparedTrackPlayout) (p : PreparedTrackPlayout)
    → total_bytes (xs ++ (p ∷ [])) ≡ total_bytes xs + byte_len p.frame
total_bytes-append [] p = omega arith
total_bytes-append (x ∷ xs) p = omega (arith, total_bytes-append xs p)

total_samples-append :
    (xs : List PreparedTrackPlayout) (p : PreparedTrackPlayout)
    → total_samples (xs ++ (p ∷ [])) ≡ total_samples xs + p.frame.duration_samples
total_samples-append [] p = omega arith
total_samples-append (x ∷ xs) p = omega (arith, total_samples-append xs p)

push_prepared-IsCounted :
    (q : PreparedPlayoutQueue) (p : PreparedTrackPlayout)
    → IsCounted q
    → IsCounted (push_prepared q p).1
unfolding push_prepared enqueue samples_from_duration_ms_u64
push_prepared-IsCounted q p v = ground (
  arith,
  length-append q.queue (p ∷ []),
  total_bytes-append q.queue p,
  total_samples-append q.queue p,
)

pop_prepared_from-IsCounted :
    (q : PreparedPlayoutQueue) (xs : List PreparedTrackPlayout)
    → q.queue ≡ xs
    → IsCounted q
    → IsCounted (pop_prepared_from q xs).1
unfolding pop_prepared_from
pop_prepared_from-IsCounted q [] e v = v
pop_prepared_from-IsCounted q (f ∷ rest) e v =
    ground (arith, ap length e, ap total_bytes e, ap total_samples e)

pop_prepared-IsCounted : (q : PreparedPlayoutQueue) → IsCounted q → IsCounted (pop_prepared q).1
unfolding pop_prepared
pop_prepared-IsCounted q v = pop_prepared_from-IsCounted q q.queue refl v

-- What the sender does to the queue, and what it is answered.
pub data PlayoutOp : Type 0 where
  push_op : PreparedTrackPlayout → PlayoutOp
  pop_op : PlayoutOp

pub data PlayoutReply : Type 0 where
  pushed : Result PreparedTrackPlayout (Unit {0}) → PlayoutReply
  popped : Option PreparedTrackPlayout → PlayoutReply

-- A packet fits where half a second of sound, 1024 packets and 4 MiB are not passed.
abbrev pub fits : List PreparedTrackPlayout → PreparedTrackPlayout → Bool
fits ps p =
    ltb (length ps) 1_024
    && (leb (total_bytes ps + byte_len p.frame) 4_194_304
        && leb (total_samples ps + p.frame.duration_samples) 24_000)

spec_step : List PreparedTrackPlayout → PlayoutOp → PlayoutReply × List PreparedTrackPlayout
spec_step ps (push_op p) =
    if fits ps p then (pushed (ok tt), ps ++ (p ∷ [])) else (pushed (err p), ps)
spec_step [] pop_op = (popped none, [])
spec_step (p ∷ ps) pop_op = (popped (some p), ps)

pub spec_run : List PreparedTrackPlayout → List PlayoutOp → List PlayoutReply
spec_run ps [] = []
spec_run ps (op ∷ ops) = let (r, ps') = spec_step ps op in r ∷ spec_run ps' ops

step : PreparedPlayoutQueue → PlayoutOp → PlayoutReply × PreparedPlayoutQueue
step q (push_op p) = let (r, q') = push_prepared q p in (pushed r, q')
step q pop_op = let (r, q') = pop_prepared q in (popped r, q')

pub run_playout : PreparedPlayoutQueue → List PlayoutOp → List PlayoutReply
run_playout q [] = []
run_playout q (op ∷ ops) = let (r, q') = step q op in r ∷ run_playout q' ops

step-IsCounted : (q : PreparedPlayoutQueue) (op : PlayoutOp) → IsCounted q → IsCounted (step q op).1
unfolding step
step-IsCounted q (push_op p) v = push_prepared-IsCounted q p v
step-IsCounted q pop_op v = pop_prepared-IsCounted q v

pop_prepared_from_refines :
    (q : PreparedPlayoutQueue) (ps : List PreparedTrackPlayout)
    → q.queue ≡ ps
    → let (r, q') = pop_prepared_from q ps in (popped r, q'.queue) ≡ spec_step ps pop_op
unfolding pop_prepared_from spec_step
pop_prepared_from_refines q [] e = rw e
pop_prepared_from_refines q (f ∷ fs) e = refl

step_refines :
    (q : PreparedPlayoutQueue) (op : PlayoutOp)
    → IsCounted q
    → let (r, q') = step q op in (r, q'.queue) ≡ spec_step q.queue op
unfolding step spec_step
step_refines q (push_op p) v =
    unfold push_prepared enqueue samples_from_duration_ms_u64 in ground arith
step_refines q pop_op v = unfold pop_prepared in pop_prepared_from_refines q q.queue refl

counted_run_refines :
    (q : PreparedPlayoutQueue) (ops : List PlayoutOp)
    → IsCounted q
    → run_playout q ops ≡ spec_run q.queue ops
unfolding run_playout spec_run
counted_run_refines q [] v = refl
counted_run_refines q (op ∷ ops) v =
    rw (counted_run_refines (step q op).1 ops (step-IsCounted q op v), ← step_refines q op v)

-- The queue of prepared packets, from its start and through any pushes and pops, answers as a list
-- that takes a packet at its end where half a second, 1024 packets and 4 MiB are not passed, counted
-- over the packets in it, and gives the packets back in their order.
pub run_playout_refines :
    (ops : List PlayoutOp) → run_playout new_playout_queue ops ≡ spec_run [] ops
unfolding new_playout_queue
run_playout_refines ops = counted_run_refines new_playout_queue ops (ground arith)
