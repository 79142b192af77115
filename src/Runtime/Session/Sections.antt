-- ===== src/Runtime/Session/Sections.antt =====
-- The sections of the commands that join, play, pause, resume, stop and leave: each takes the runtime
-- under the lock of its snapshot and leaves it changed, with the event that the code emits next.
use discord_voice_service.Common.{
  ℕ, Bool, String, Option, none, some, if◌then◌else◌, str_eq, Result, ok, err, panic, ◌>>◌,
}
use discord_voice_service.Runtime.Error.{RuntimeError, invalid_state}
use discord_voice_service.Runtime.State.{
  SessionState, connecting_voice, voice_ready, resolving_track, buffering, playing, paused,
  Snapshot, default_snapshot,
}
use discord_voice_service.Runtime.Readiness.{
  is_playing, Action, ensure_joinable_session, ensure_active_voice_session, ensure_track_loaded,
  ensure_pauseable_track, ensure_resumable_track,
}
use discord_voice_service.Runtime.Readiness
use discord_voice_service.Runtime.Session.Events.{
  SessionEventKind, SessionEventRecord, from_snapshot,
}
use discord_voice_service.Runtime.Session.Events
use discord_voice_service.Runtime.Session.Store.{
  VoiceContext, ConnectedVoiceSession, VoiceSessionRuntime, playback_interrupted,
  defer_playback_reset,
}

-- What a section returns with the runtime: an error, or the event to emit, if there is one.
abbrev pub Emission : Type 0
Emission = Result RuntimeError (Option SessionEventRecord)

abbrev pub write : VoiceSessionRuntime → Snapshot → VoiceSessionRuntime
write rt s = record rt { state = s }

-- The snapshot is written, and described by an event.
abbrev pub emitting :
    SessionEventKind → VoiceSessionRuntime → Snapshot → VoiceSessionRuntime × Emission
emitting kind rt s = (write rt s, ok (some (from_snapshot kind s)))

-- Nothing is written.
abbrev pub silent : VoiceSessionRuntime → VoiceSessionRuntime × Emission
silent rt = (rt, ok none)

-- `guard?` and what follows it.
abbrev pub guarded :
    Result RuntimeError (Unit {0})
    → VoiceSessionRuntime
    → VoiceSessionRuntime × Emission
    → VoiceSessionRuntime × Emission
guarded (ok u) rt rest = rest
guarded (err e) rt rest = (rt, err e)
guarded panic rt rest = (rt, panic)

abbrev pub is_paused : SessionState → Bool
is_paused paused = Bool.true
is_paused _ = Bool.false

-- `id.as_deref() == Some(video_id)`
abbrev pub is_video : Option String → String → Bool
is_video none video_id = Bool.false
is_video (some current) video_id = str_eq current video_id

unfoldable pub apply_voice_context : Snapshot → VoiceContext → Snapshot
apply_voice_context s voice = record s {
  guild_id = some voice.guild_id;
  channel_id = some voice.channel_id;
}

unfoldable pub apply_rollover_state : Snapshot → ConnectedVoiceSession → Snapshot
apply_rollover_state s session = record s {
  recovering = session.recovering;
  voice_reconnecting = session.voice_reconnecting;
}

unfoldable pub join_connecting : VoiceContext → VoiceSessionRuntime → VoiceSessionRuntime × Emission
join_connecting voice rt = guarded (ensure_joinable_session rt.state) rt (
    emitting Events.voice_connecting rt (record (apply_voice_context rt.state voice) {
      current_video_id = none;
      selected_itag = none;
      queue_depth = 0;
      position_ms = 0;
      last_reason = none;
      state = connecting_voice;
    }))

abbrev joined : ConnectedVoiceSession → Snapshot → Snapshot
joined session s =
    record (apply_rollover_state (apply_voice_context s session.voice_context) session) {
      current_video_id = none;
      selected_itag = none;
      queue_depth = 0;
      position_ms = 0;
      last_reason = none;
      state = if session.is_connected then voice_ready else connecting_voice;
    }

-- The code also awaits the lock of the voice session here, to put the session in it.
unfoldable pub join_finished :
    ConnectedVoiceSession → VoiceSessionRuntime → VoiceSessionRuntime × Emission
join_finished session rt =
    if session.is_connected
    then emitting Events.voice_ready rt (joined session rt.state)
    else (write rt (joined session rt.state), ok none)

unfoldable pub resume_position_hint : String → Snapshot → ℕ
resume_position_hint video_id s = if is_video s.current_video_id video_id then s.position_ms else 0

unfoldable pub play_resolving :
    String → ℕ → ℕ → VoiceSessionRuntime → VoiceSessionRuntime × Emission
play_resolving video_id playback_epoch resume_position_hint rt =
    if playback_interrupted rt playback_epoch
    then silent rt
    else guarded (ensure_active_voice_session rt.state Readiness.play) rt (
        emitting Events.track_resolving rt (record rt.state {
          current_video_id = some video_id;
          selected_itag = none;
          queue_depth = 0;
          position_ms = resume_position_hint;
          last_reason = none;
          state = resolving_track;
        }))

abbrev located : String → ℕ → ℕ → ℕ → Snapshot → Snapshot
located video_id selected_itag queue_depth position_ms s = record s {
  current_video_id = some video_id;
  selected_itag = some selected_itag;
  queue_depth = queue_depth;
  position_ms = position_ms;
}

-- The state is written after the fields of the track, so that a kind that is refused keeps these.
abbrev entered : SessionEventKind → VoiceSessionRuntime → Snapshot → VoiceSessionRuntime × Emission
entered Events.buffering rt s = emitting Events.buffering rt (record s { state = buffering })
entered Events.playing rt s = emitting Events.playing rt (record s { state = playing })
entered _ rt s = (write rt s, err (invalid_state "unsupported playback state event"))

unfoldable pub emit_playback_state :
    SessionEventKind → String → ℕ → ℕ → ℕ → ℕ → VoiceSessionRuntime → VoiceSessionRuntime × Emission
emit_playback_state kind video_id playback_epoch selected_itag queue_depth position_ms rt =
    if playback_interrupted rt playback_epoch
    then silent rt
    else if is_paused rt.state.state
    then silent rt
    else entered kind rt (located video_id selected_itag queue_depth position_ms rt.state)

-- The event is taken before the track is cleared.
unfoldable pub track_ended : ℕ → ℕ → VoiceSessionRuntime → VoiceSessionRuntime × Emission
track_ended playback_epoch position_ms rt =
    if playback_interrupted rt playback_epoch then silent rt else (
      write rt (record rt.state {
        current_video_id = none;
        selected_itag = none;
        queue_depth = 0;
        position_ms = 0;
        state = voice_ready;
      }),
      ok (some (from_snapshot Events.track_ended (record rt.state { position_ms = position_ms }))),
    )

-- A task that has played its track to the end leaves the mark for a reset before it takes the lock of the
-- snapshot, whether or not it is out of date.
unfoldable pub naturally_ended : ℕ → ℕ → VoiceSessionRuntime → VoiceSessionRuntime × Emission
naturally_ended playback_epoch position_ms rt =
    track_ended playback_epoch position_ms (defer_playback_reset rt)

-- The first section of `pause`, which only reads: whether the track is paused already.
unfoldable pub pause_check : Snapshot → Result RuntimeError Bool
unfolding ensure_track_loaded ensure_pauseable_track
pause_check s = do
  ensure_track_loaded s Readiness.pause
  if is_paused s.state then ok Bool.true else do ensure_pauseable_track s; ok Bool.false

unfoldable pub pausing : VoiceSessionRuntime → VoiceSessionRuntime × Emission
pausing rt = guarded (ensure_track_loaded rt.state Readiness.pause) rt (
    if is_paused rt.state.state
    then silent rt
    else guarded (ensure_pauseable_track rt.state) rt
        (emitting Events.paused rt (record rt.state { state = paused })))

-- The first section of `resume`: whether the track plays already.
unfoldable pub resume_check : Snapshot → Result RuntimeError Bool
unfolding ensure_track_loaded ensure_resumable_track
resume_check s = do
  ensure_track_loaded s Readiness.resume
  if is_playing s.state then ok Bool.true else do ensure_resumable_track s; ok Bool.false

unfoldable pub resuming : VoiceSessionRuntime → VoiceSessionRuntime × Emission
resuming rt = guarded (ensure_track_loaded rt.state Readiness.resume) rt (
    if is_playing rt.state.state
    then silent rt
    else guarded (ensure_resumable_track rt.state) rt
        (emitting Events.playing rt (record rt.state { state = playing })))

-- The last section of `stop`, which has no guard.
unfoldable pub stopped : VoiceSessionRuntime → VoiceSessionRuntime × Emission
stopped rt = emitting Events.stopped rt (record rt.state {
  current_video_id = none;
  selected_itag = none;
  queue_depth = 0;
  position_ms = 0;
  last_reason = none;
  state = voice_ready;
})

-- The write of `leave_voice`.
unfoldable pub left : VoiceSessionRuntime → VoiceSessionRuntime × Emission
left rt = (write rt default_snapshot, ok none)
