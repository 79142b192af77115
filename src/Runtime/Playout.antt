-- ===== src/Runtime/Playout.antt =====
-- crates/discord-voice-service-runtime/src/session/runtime.rs: the buffer of source frames before the
-- sender, and the queue of the packets that are prepared from them.
pub mod Refine
use discord_voice_service.Common.{
  ℕ, ◌+◌, ◌-◌, ◌*◌, Bool, ◌||◌, Option, none, some, List, [], ◌∷◌, ◌++◌, ltb, leb, if◌then◌else◌,
  length, Result, ok, err,
}
use discord_voice_service.Common.Words.{saturating_add}
use discord_voice_service.Playback.OpusFrame.{
  OpusFrame, byte_len, samples_from_duration_ms_u64, duration_ms_from_samples,
}
use discord_voice_service.Playback.OpusQueue.{OpusFrameQueue, with_resource_limits, OpusBufferDepth}
use discord_voice_service.Runtime.DeadlineSender.{PreparedPlayoutCommand}

abbrev pub playback_queue_capacity : ℕ
playback_queue_capacity = 1_024

abbrev pub playback_buffer_memory_cap_bytes : ℕ
playback_buffer_memory_cap_bytes = 4 * 1_024 * 1_024

abbrev pub egress_high_watermark_ms : ℕ
egress_high_watermark_ms = 500

-- `DiscordEgressBuffer::new`; its other operations are those of the queue.
unfoldable pub new_egress_buffer : OpusFrameQueue
new_egress_buffer =
    with_resource_limits playback_queue_capacity playback_buffer_memory_cap_bytes
      egress_high_watermark_ms

pub record PreparedTrackPlayout : Type 0 where
  pub command : PreparedPlayoutCommand
  pub frame : OpusFrame

pub record PreparedPlayoutQueue : Type 0 where
  pub queue : List PreparedTrackPlayout
  pub packets : ℕ
  pub bytes : ℕ
  pub duration_samples : ℕ

unfoldable pub new_playout_queue : PreparedPlayoutQueue
new_playout_queue = record { queue = []; packets = 0; bytes = 0; duration_samples = 0 }

unfoldable pub enqueue : PreparedPlayoutQueue → PreparedTrackPlayout → PreparedPlayoutQueue
enqueue q prepared = record {
  queue = q.queue ++ (prepared ∷ []);
  packets = saturating_add q.packets 1;
  bytes = saturating_add q.bytes (byte_len prepared.frame);
  duration_samples = saturating_add q.duration_samples prepared.frame.duration_samples;
}

-- `PreparedPlayoutQueue::push`. What is refused is handed back.
unfoldable pub push_prepared :
    PreparedPlayoutQueue
    → PreparedTrackPlayout
    → Result PreparedTrackPlayout (Unit {0}) × PreparedPlayoutQueue
unfolding samples_from_duration_ms_u64
push_prepared q prepared =
    if ltb (samples_from_duration_ms_u64 egress_high_watermark_ms)
      (saturating_add q.duration_samples prepared.frame.duration_samples)
    then (err prepared, q)
    else if leb playback_queue_capacity q.packets
    then (err prepared, q)
    else if ltb playback_buffer_memory_cap_bytes (saturating_add q.bytes (byte_len prepared.frame))
    then (err prepared, q)
    else (ok tt, enqueue q prepared)

pop_prepared_from :
    PreparedPlayoutQueue
    → List PreparedTrackPlayout
    → Option PreparedTrackPlayout × PreparedPlayoutQueue
pop_prepared_from q [] = (none, q)
pop_prepared_from q (prepared ∷ rest) = (
  some prepared,
  record {
    queue = rest;
    packets = q.packets - 1;
    bytes = q.bytes - byte_len prepared.frame;
    duration_samples = q.duration_samples - prepared.frame.duration_samples;
  },
)

-- `PreparedPlayoutQueue::pop`
unfoldable pub pop_prepared :
    PreparedPlayoutQueue → Option PreparedTrackPlayout × PreparedPlayoutQueue
unfolding pop_prepared_from
pop_prepared q = pop_prepared_from q q.queue

unfoldable pub playout_depth : PreparedPlayoutQueue → OpusBufferDepth
playout_depth q = record {
  packets = q.packets;
  bytes = q.bytes;
  duration_ms = duration_ms_from_samples q.duration_samples;
  duration_samples = q.duration_samples;
}

unfoldable pub playout_is_full : PreparedPlayoutQueue → Bool
unfolding samples_from_duration_ms_u64
playout_is_full q =
    leb (samples_from_duration_ms_u64 egress_high_watermark_ms) q.duration_samples
    || (leb playback_queue_capacity q.packets || leb playback_buffer_memory_cap_bytes q.bytes)
