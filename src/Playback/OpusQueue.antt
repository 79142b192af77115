-- ===== src/Playback/OpusQueue.antt =====
-- crates/discord-voice-service-playback/src/media/opus_queue.rs, second part: the queue of Opus
-- frames that is bounded by packets, bytes and duration, with counters beside the frames.
pub mod Invariant
pub mod Refine
use discord_voice_service.Common.{
  ℕ, ◌+◌, ◌-◌, ◌*◌, Bool, true, false, not, ◌&&◌, ◌||◌, Option, none, some, List, [], ◌∷◌, ◌++◌,
  ltb, leb, ◌==◌, if◌then◌else◌, length, Result, ok, err, map,
}
use discord_voice_service.Common.Words.{u64_max, saturating_add}
use discord_voice_service.Playback.OpusFrame.{
  OpusFrame, byte_len, samples_from_duration_ms_u64, duration_ms_from_samples,
}

-- The duration counter and its limit are in samples.
pub record OpusFrameQueue : Type 0 where
  pub capacity : ℕ
  pub max_bytes : ℕ
  pub max_duration_samples : ℕ
  pub duration_samples : ℕ
  pub bytes : ℕ
  pub inner : List OpusFrame

pub record OpusBufferDepth : Type 0 where
  pub packets : ℕ
  pub bytes : ℕ
  pub duration_ms : ℕ
  pub duration_samples : ℕ

unfoldable pub with_resource_limits : ℕ → ℕ → ℕ → OpusFrameQueue
with_resource_limits capacity max_bytes max_duration_ms = record {
  capacity = capacity;
  max_bytes = max_bytes;
  max_duration_samples = samples_from_duration_ms_u64 max_duration_ms;
  duration_samples = 0;
  bytes = 0;
  inner = [];
}

unfoldable pub with_limits : ℕ → ℕ → OpusFrameQueue
with_limits capacity max_bytes = with_resource_limits capacity max_bytes u64_max

-- `OpusFrameQueue::new`
unfoldable pub new_queue : ℕ → OpusFrameQueue
new_queue capacity = with_limits capacity u64_max

unfoldable pub can_fit_resource : OpusFrameQueue → ℕ → ℕ → Bool
can_fit_resource q byte_len duration_samples =
    ltb (length q.inner) q.capacity
    && leb (saturating_add q.bytes byte_len) q.max_bytes
    && leb (saturating_add q.duration_samples duration_samples) q.max_duration_samples

unfoldable pub can_fit_frame : OpusFrameQueue → OpusFrame → Bool
unfolding can_fit_resource
can_fit_frame q f = can_fit_resource q (byte_len f) f.duration_samples

-- A refused frame is handed back.
unfoldable pub push : OpusFrameQueue → OpusFrame → Result OpusFrame (Unit {0}) × OpusFrameQueue
unfolding can_fit_frame
push q f = if not (can_fit_frame q f) then (err f, q) else (
  ok tt,
  record q {
    duration_samples = saturating_add q.duration_samples f.duration_samples;
    bytes = saturating_add q.bytes (byte_len f);
    inner = q.inner ++ (f ∷ []);
  },
)

unfoldable pub push_front :
    OpusFrameQueue → OpusFrame → Result OpusFrame (Unit {0}) × OpusFrameQueue
unfolding can_fit_frame
push_front q f = if not (can_fit_frame q f) then (err f, q) else (
  ok tt,
  record q {
    duration_samples = saturating_add q.duration_samples f.duration_samples;
    bytes = saturating_add q.bytes (byte_len f);
    inner = f ∷ q.inner;
  },
)

pop_from : OpusFrameQueue → List OpusFrame → Option OpusFrame × OpusFrameQueue
pop_from q [] = (none, q)
pop_from q (f ∷ rest) = (
  some f,
  record q {
    duration_samples = q.duration_samples - f.duration_samples;
    bytes = q.bytes - byte_len f;
    inner = rest;
  },
)

unfoldable pub pop : OpusFrameQueue → Option OpusFrame × OpusFrameQueue
unfolding pop_from
pop q = pop_from q q.inner

abbrev pub len : OpusFrameQueue → ℕ
len q = length q.inner

unfoldable pub is_empty : OpusFrameQueue → Bool
is_empty q = length q.inner == 0

unfoldable pub is_full : OpusFrameQueue → Bool
is_full q =
    leb q.capacity (length q.inner)
    || leb q.max_bytes q.bytes
    || leb q.max_duration_samples q.duration_samples

unfoldable pub depth : OpusFrameQueue → OpusBufferDepth
depth q = record {
  packets = len q;
  bytes = q.bytes;
  duration_ms = duration_ms_from_samples q.duration_samples;
  duration_samples = q.duration_samples;
}

-- The loop of `recalculate_depth`, over the two counters.
unfoldable pub recount : ℕ → ℕ → List OpusFrame → ℕ × ℕ
recount duration_samples bytes [] = (duration_samples, bytes)
recount duration_samples bytes (f ∷ rest) =
    recount (saturating_add duration_samples f.duration_samples) (saturating_add bytes (byte_len f))
      rest

unfoldable pub recalculate_depth : OpusFrameQueue → OpusFrameQueue
recalculate_depth q =
    let (duration_samples, bytes) = recount 0 0 q.inner in
    record q { duration_samples = duration_samples; bytes = bytes }

-- The loop of `drop_stale_epoch`: from the front of the old queue to the back of the new.
unfoldable pub retain_epoch : ℕ → List OpusFrame → List OpusFrame → List OpusFrame
retain_epoch epoch retained [] = retained
retain_epoch epoch retained (f ∷ rest) =
    retain_epoch epoch (if f.epoch == epoch then retained ++ (f ∷ []) else retained) rest

unfoldable pub drop_stale_epoch : OpusFrameQueue → ℕ → OpusFrameQueue
drop_stale_epoch q epoch = recalculate_depth (record q { inner = retain_epoch epoch [] q.inner })

unfoldable pub retag_epoch : OpusFrameQueue → ℕ → OpusFrameQueue
retag_epoch q epoch = record q {
  inner = map (λ (f : OpusFrame). record f { epoch = epoch }) q.inner;
}
