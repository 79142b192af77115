-- ===== src/Runtime/Session/Store.antt =====
-- The state of the session runtime that its commands share, and the epochs by which a task learns
-- that it is out of date. An epoch is a 64-bit atomic, which wraps round.
use discord_voice_service.Common.{ℕ, ◌+◌, ◌%◌, ◌^◌, Bool, true, false, String, not, ◌==◌}
use discord_voice_service.Runtime.State.{Snapshot, default_snapshot}

-- crates/discord-voice-service-voice/src/session.rs: what identifies a voice connection.
pub record VoiceContext : Type 0 where
  pub guild_id : String
  pub channel_id : String
  pub user_id : String
  pub session_id : String
  pub endpoint : String
  pub token : String

-- What the runtime reads of a voice session, by the methods of these names.
pub record ConnectedVoiceSession : Type 0 where
  pub voice_context : VoiceContext
  pub is_connected : Bool
  pub recovering : Bool
  pub voice_reconnecting : Bool

pub record VoiceSessionRuntime : Type 0 where
  pub state : Snapshot
  pub playback_epoch : ℕ
  pub rollover_epoch : ℕ
  pub voice_transport_generation : ℕ
  pub playback_reset_pending : Bool

abbrev pub new_runtime : VoiceSessionRuntime
new_runtime = record {
  state = default_snapshot;
  playback_epoch = 0;
  rollover_epoch = 0;
  voice_transport_generation = 0;
  playback_reset_pending = false;
}

-- `fetch_add(1)`
abbrev pub next_epoch : ℕ → ℕ
next_epoch epoch = (epoch + 1) % (2 ^ 64)

unfoldable pub begin_playback : VoiceSessionRuntime → ℕ × VoiceSessionRuntime
begin_playback rt =
    (next_epoch rt.playback_epoch, record rt { playback_epoch = next_epoch rt.playback_epoch })

unfoldable pub invalidate_playback : VoiceSessionRuntime → VoiceSessionRuntime
invalidate_playback rt = record rt { playback_epoch = next_epoch rt.playback_epoch }

unfoldable pub begin_rollover : VoiceSessionRuntime → ℕ × VoiceSessionRuntime
begin_rollover rt =
    (next_epoch rt.rollover_epoch, record rt { rollover_epoch = next_epoch rt.rollover_epoch })

unfoldable pub invalidate_rollover : VoiceSessionRuntime → VoiceSessionRuntime
invalidate_rollover rt = record rt { rollover_epoch = next_epoch rt.rollover_epoch }

unfoldable pub defer_playback_reset : VoiceSessionRuntime → VoiceSessionRuntime
defer_playback_reset rt = record rt { playback_reset_pending = true }

unfoldable pub consume_playback_reset : VoiceSessionRuntime → Bool × VoiceSessionRuntime
consume_playback_reset rt =
    (rt.playback_reset_pending, record rt { playback_reset_pending = false })

-- `voice_transport_generation.fetch_add(1)`
unfoldable pub advance_transport_generation : VoiceSessionRuntime → VoiceSessionRuntime
advance_transport_generation rt = record rt {
  voice_transport_generation = next_epoch rt.voice_transport_generation;
}

unfoldable pub playback_interrupted : VoiceSessionRuntime → ℕ → Bool
playback_interrupted rt epoch = not (rt.playback_epoch == epoch)

unfoldable pub playback_state_is_current : VoiceSessionRuntime → ℕ → Bool
playback_state_is_current rt epoch = rt.playback_epoch == epoch

unfoldable pub rollover_is_current : VoiceSessionRuntime → ℕ → Bool
rollover_is_current rt epoch = rt.rollover_epoch == epoch
