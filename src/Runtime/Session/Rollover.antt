-- ===== src/Runtime/Session/Rollover.antt =====
-- The sections of a rollover, which moves the session to another voice connection.
use discord_voice_service.Common.{Bool, false, true, ◌&&◌, String, none, some, if◌then◌else◌, ℕ}
use discord_voice_service.Runtime.State.{SessionState, idle, voice_ready, Snapshot}
use discord_voice_service.Runtime.Readiness.{is_some}
use discord_voice_service.Runtime.Session.Events
use discord_voice_service.Runtime.Session.Store.{
  VoiceContext, ConnectedVoiceSession, VoiceSessionRuntime, playback_state_is_current,
  rollover_is_current,
}
use discord_voice_service.Runtime.Session.Sections.{
  Emission, write, emitting, silent, is_paused, is_video, apply_voice_context, apply_rollover_state,
}

unfoldable pub reconnecting : VoiceSessionRuntime → VoiceSessionRuntime × Emission
reconnecting rt =
    emitting Events.voice_reconnecting rt (record rt.state { voice_reconnecting = true })

abbrev moved : ConnectedVoiceSession → Snapshot → Snapshot
moved session s =
    record (apply_rollover_state (apply_voice_context s session.voice_context) session) {
      last_reason = none;
      state = if is_some s.current_video_id then s.state else voice_ready;
    }

unfoldable pub reconnected :
    ConnectedVoiceSession → VoiceSessionRuntime → VoiceSessionRuntime × Emission
reconnected session rt = emitting Events.voice_ready rt (moved session rt.state)

abbrev settled : Snapshot → SessionState
settled s = if is_some s.guild_id && is_some s.channel_id then voice_ready else idle

unfoldable pub recover_rollover_without_playback :
    String → VoiceSessionRuntime → VoiceSessionRuntime × Emission
recover_rollover_without_playback reason rt =
    emitting Events.recoverable_warning rt (record rt.state {
      voice_reconnecting = false;
      last_reason = some reason;
      state = settled rt.state;
    })

unfoldable pub interrupt_playback : String → VoiceSessionRuntime → VoiceSessionRuntime × Emission
interrupt_playback reason rt = emitting Events.playback_interrupted rt (record rt.state {
  current_video_id = none;
  selected_itag = none;
  queue_depth = 0;
  position_ms = 0;
  voice_reconnecting = false;
  last_reason = some reason;
  state = settled rt.state;
})

unfoldable pub refresh_paused_voice_context :
    VoiceContext → VoiceSessionRuntime → VoiceSessionRuntime × Emission
refresh_paused_voice_context new_voice rt =
    if is_paused rt.state.state
    then silent (
        write rt (record (apply_voice_context rt.state new_voice) {
          recovering = false;
          voice_reconnecting = false;
          last_reason = none;
        }))
    else silent rt

-- `rollover_resume_is_still_intended` and `resume_attempt_is_still_current`, which are the same
-- test.
unfoldable pub rollover_resume_is_still_intended : String → ℕ → ℕ → VoiceSessionRuntime → Bool
rollover_resume_is_still_intended video_id resume_guard_epoch rollover_epoch rt =
    rollover_is_current rt rollover_epoch
    && (playback_state_is_current rt resume_guard_epoch
        && is_video rt.state.current_video_id video_id)
