-- ===== src/Runtime/Session/Invariant.antt =====
-- What holds of the snapshot at every moment of every interleaving.
use discord_voice_service.Common.{◌≡◌, Bool, true, false, ◌||◌, not, List, [], ◌∷◌, arith}
use discord_voice_service.Runtime.Readiness.{
  is_some, ensure_joinable_session, ensure_active_voice_session, ensure_track_loaded,
  ensure_pauseable_track, ensure_resumable_track,
}
use discord_voice_service.Runtime.State.{
  SessionState, resolving_track, buffering, playing, paused, stopping, error, Snapshot,
}
use discord_voice_service.Runtime.Session.Store.{
  VoiceSessionRuntime, begin_playback, invalidate_playback, begin_rollover, invalidate_rollover,
  defer_playback_reset, consume_playback_reset, advance_transport_generation,
}
use discord_voice_service.Runtime.Session.Sections.{
  apply_voice_context, apply_rollover_state, join_connecting, join_finished, play_resolving,
  emit_playback_state, track_ended, pausing, resuming, stopped, left,
}
use discord_voice_service.Runtime.Session.Rollover.{
  reconnecting, reconnected, recover_rollover_without_playback, interrupt_playback,
  refresh_paused_voice_context,
}
use discord_voice_service.Runtime.Session.Interleaving.{Section, run_section, interleave}
use discord_voice_service.Runtime.Session.Interleaving

-- A track is being resolved, buffered, played or paused.
abbrev pub has_track_state : SessionState → Bool
has_track_state resolving_track = true
has_track_state buffering = true
has_track_state playing = true
has_track_state paused = true
has_track_state _ = false

-- The states that the runtime never enters.
abbrev pub is_unused : SessionState → Bool
is_unused stopping = true
is_unused error = true
is_unused _ = false

-- The guild and the channel are set together, a state of a track has a track, and the state is none of
-- those that are never entered.
abbrev pub IsConsistent : Snapshot → Type 0
IsConsistent s =
    (is_some s.guild_id ≡ is_some s.channel_id)
    × ((not (has_track_state s.state) || is_some s.current_video_id) ≡ true)
    × (is_unused s.state ≡ false)

run_section-IsConsistent :
    (section : Section) (rt : VoiceSessionRuntime)
    → IsConsistent rt.state
    → IsConsistent (run_section section rt).0.state
unfolding join_connecting join_finished play_resolving emit_playback_state track_ended pausing
    resuming stopped left reconnecting reconnected recover_rollover_without_playback
    interrupt_playback refresh_paused_voice_context begin_playback invalidate_playback
    begin_rollover invalidate_rollover defer_playback_reset consume_playback_reset
    advance_transport_generation apply_voice_context apply_rollover_state ensure_joinable_session
    ensure_active_voice_session ensure_track_loaded ensure_pauseable_track ensure_resumable_track
run_section-IsConsistent (Interleaving.connecting voice) rt h = ground arith
run_section-IsConsistent (Interleaving.joined session) rt h = ground arith
run_section-IsConsistent (Interleaving.resolving video_id epoch hint) rt h = ground arith
run_section-IsConsistent (Interleaving.playback kind video_id epoch itag depth position) rt h =
    ground arith
run_section-IsConsistent (Interleaving.ended epoch position) rt h = ground arith
run_section-IsConsistent Interleaving.pause rt h = ground arith
run_section-IsConsistent Interleaving.resume rt h = ground arith
run_section-IsConsistent Interleaving.stop rt h = ground arith
run_section-IsConsistent Interleaving.leave rt h = ground arith
run_section-IsConsistent Interleaving.rollover_start rt h = h
run_section-IsConsistent (Interleaving.rollover_end session) rt h = ground arith
run_section-IsConsistent (Interleaving.rollover_failed reason) rt h = ground arith
run_section-IsConsistent (Interleaving.interrupted reason) rt h = ground arith
run_section-IsConsistent (Interleaving.refreshed voice) rt h = ground arith
run_section-IsConsistent Interleaving.playback_begun rt h = h
run_section-IsConsistent Interleaving.playback_invalidated rt h = h
run_section-IsConsistent Interleaving.rollover_begun rt h = h
run_section-IsConsistent Interleaving.rollover_invalidated rt h = h
run_section-IsConsistent Interleaving.reset_deferred rt h = h
run_section-IsConsistent Interleaving.reset_consumed rt h = h
run_section-IsConsistent Interleaving.generation_advanced rt h = h

-- Whatever sections of commands are interleaved, from a runtime of which the following holds (as of a
-- new one), it holds at the end too:
-- the guild and the channel of the snapshot are set together, it has a track if its state is one of a
-- track (resolving, buffering, playing, paused), and it is in neither of the states `Stopping` and
-- `Error`.
pub interleave-IsConsistent :
    (sections : List Section) (rt : VoiceSessionRuntime)
    → IsConsistent rt.state
    → IsConsistent (interleave sections rt).state
interleave-IsConsistent [] rt h = h
interleave-IsConsistent (section ∷ sections) rt h =
    interleave-IsConsistent sections (run_section section rt).0
      (run_section-IsConsistent section rt h)
