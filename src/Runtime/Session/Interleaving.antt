-- ===== src/Runtime/Session/Interleaving.antt =====
-- The interleavings of concurrent commands: lists of the sections and of the atomic operations on the
-- epochs, with any arguments.
use discord_voice_service.Common.{ℕ, String, List, [], ◌∷◌}
use discord_voice_service.Runtime.Session.Events.{SessionEventKind}
use discord_voice_service.Runtime.Session.Store.{
  VoiceContext, ConnectedVoiceSession, VoiceSessionRuntime, begin_playback, invalidate_playback,
  begin_rollover, invalidate_rollover, defer_playback_reset, consume_playback_reset,
  advance_transport_generation,
}
use discord_voice_service.Runtime.Session.Sections.{
  Emission, silent, join_connecting, join_finished, play_resolving, emit_playback_state,
  track_ended, pausing, resuming, stopped, left,
}
use discord_voice_service.Runtime.Session.Rollover.{
  reconnecting, reconnected, recover_rollover_without_playback, interrupt_playback,
  refresh_paused_voice_context,
}

pub data Section : Type 0 where
  connecting : VoiceContext → Section
  joined : ConnectedVoiceSession → Section
  resolving : (video_id : String) (playback_epoch resume_position : ℕ) → Section
  playback :
      (kind : SessionEventKind) (video_id : String)
      (playback_epoch selected_itag queue_depth position_ms : ℕ)
      → Section
  ended : (playback_epoch position_ms : ℕ) → Section
  pause : Section
  resume : Section
  stop : Section
  leave : Section
  rollover_start : Section
  rollover_end : ConnectedVoiceSession → Section
  rollover_failed : String → Section
  interrupted : String → Section
  refreshed : VoiceContext → Section
  playback_begun : Section
  playback_invalidated : Section
  rollover_begun : Section
  rollover_invalidated : Section
  reset_deferred : Section
  reset_consumed : Section
  generation_advanced : Section

abbrev pub run_section : Section → VoiceSessionRuntime → VoiceSessionRuntime × Emission
run_section (connecting voice) rt = join_connecting voice rt
run_section (joined session) rt = join_finished session rt
run_section (resolving video_id epoch hint) rt = play_resolving video_id epoch hint rt
run_section (playback kind video_id epoch itag depth position) rt =
    emit_playback_state kind video_id epoch itag depth position rt
run_section (ended epoch position) rt = track_ended epoch position rt
run_section pause rt = pausing rt
run_section resume rt = resuming rt
run_section stop rt = stopped rt
run_section leave rt = left rt
run_section rollover_start rt = reconnecting rt
run_section (rollover_end session) rt = reconnected session rt
run_section (rollover_failed reason) rt = recover_rollover_without_playback reason rt
run_section (interrupted reason) rt = interrupt_playback reason rt
run_section (refreshed voice) rt = refresh_paused_voice_context voice rt
run_section playback_begun rt = silent (begin_playback rt).1
run_section playback_invalidated rt = silent (invalidate_playback rt)
run_section rollover_begun rt = silent (begin_rollover rt).1
run_section rollover_invalidated rt = silent (invalidate_rollover rt)
run_section reset_deferred rt = silent (defer_playback_reset rt)
run_section reset_consumed rt = silent (consume_playback_reset rt).1
run_section generation_advanced rt = silent (advance_transport_generation rt)

abbrev pub interleave : List Section → VoiceSessionRuntime → VoiceSessionRuntime
interleave [] rt = rt
interleave (section ∷ sections) rt = interleave sections (run_section section rt).0
