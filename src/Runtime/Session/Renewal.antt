-- ===== src/Runtime/Session/Renewal.antt =====
-- `update_voice_context`: a paused session gets the new context, any other is moved to a new voice
-- connection by a rollover, after which its track is resumed.
use discord_voice_service.Common.{
  ℕ, Bool, true, false, not, ◌&&◌, String, Option, none, some, if◌then◌else◌, str_eq, Result, ok,
  err, panic, ok_or,
}
use discord_voice_service.Common
use discord_voice_service.Voice.Error.{VoiceError}
use discord_voice_service.Runtime.Error.{RuntimeError, invalid_state, voice}
use discord_voice_service.Runtime.State.{Snapshot}
use discord_voice_service.Runtime.Readiness.{ensure_active_voice_session}
use discord_voice_service.Runtime.Readiness
use discord_voice_service.Runtime.Session.Events.{stop_media}
use discord_voice_service.Runtime.Session.Store.{
  VoiceContext, ConnectedVoiceSession, VoiceSessionRuntime, begin_playback, begin_rollover,
  invalidate_playback, advance_transport_generation, rollover_is_current,
}
use discord_voice_service.Runtime.Session.Sections.{is_paused, play_resolving, resume_position_hint}
use discord_voice_service.Runtime.Session.Rollover.{
  reconnecting, reconnected, recover_rollover_without_playback, interrupt_playback,
  refresh_paused_voice_context, rollover_resume_is_still_intended,
}
use discord_voice_service.Runtime.Session.Surroundings.{
  Surroundings, Command, pure, unless, ◌>>=◌, ◌>>◌, lift, reading, asking, stepping, updating,
  in_section, emit, on_err, spawn_resume, send_media_command, await_others,
}
use discord_voice_service.Runtime.Session.Commands.{return_session}

abbrev same_context : VoiceContext → VoiceContext → Bool
same_context a b =
    str_eq a.guild_id b.guild_id
    && (str_eq a.channel_id b.channel_id
        && (str_eq a.user_id b.user_id
            && (str_eq a.session_id b.session_id
                && (str_eq a.endpoint b.endpoint && str_eq a.token b.token))))

unfoldable pub current_voice_context_matches : Option ConnectedVoiceSession → VoiceContext → Bool
current_voice_context_matches none new_voice = false
current_voice_context_matches (some session) new_voice =
    same_context session.voice_context new_voice

abbrev still_intended : Option String → ℕ → ℕ → VoiceSessionRuntime → Bool
still_intended none resume_guard_epoch rollover_epoch rt = false
still_intended (some video_id) resume_guard_epoch rollover_epoch rt =
    rollover_resume_is_still_intended video_id resume_guard_epoch rollover_epoch rt

unfoldable pub quiesce_current_transport : Surroundings → Command (Unit {0})
quiesce_current_transport env = do send_media_command (stop_media true); await_others env 6

-- A connection that failed: where another rollover has begun nothing is written, and the failure is
-- not reported.
unfoldable pub rollover_failed :
    Surroundings → Option String → ℕ → ℕ → VoiceError → Command (Unit {0})
rollover_failed env resume_video_id resume_playback_epoch rollover_epoch e = do
  current ← asking (λ rt. rollover_is_current rt rollover_epoch)
  unless (not current) do
    intended ← asking (still_intended resume_video_id resume_playback_epoch rollover_epoch)
    unless (not intended) (quiesce_current_transport env)
    event ← in_section (
        if intended
        then interrupt_playback (env.reconnect_failed e)
        else recover_rollover_without_playback (env.reconnect_failed e))
    emit event
    lift (err (voice e))

-- The track of before is resumed by a task of its own, if it is still wanted.
abbrev resume_track : Surroundings → Option String → ℕ → ℕ → Command (Unit {0})
resume_track env none resume_playback_epoch rollover_epoch = pure tt
resume_track env (some video_id) resume_playback_epoch rollover_epoch =
    unless (not env.has_playback) do
      await_others env 8
      intended ←
          asking (rollover_resume_is_still_intended video_id resume_playback_epoch rollover_epoch)
      unless (not intended) do
        resume_attempt_epoch ← stepping begin_playback
        spawn_resume video_id resume_attempt_epoch rollover_epoch

unfoldable pub rollover_connected :
    Surroundings → Option String → ℕ → ℕ → ConnectedVoiceSession → Command (Unit {0})
rollover_connected env resume_video_id resume_playback_epoch rollover_epoch replacement = do
  current ← asking (λ rt. rollover_is_current rt rollover_epoch)
  unless (not current) do
    await_others env 7
    reconnected_event ← in_section (reconnected replacement)
    emit reconnected_event
    resume_track env resume_video_id resume_playback_epoch rollover_epoch

abbrev on_result :
    {A : Type 0}
    → Result VoiceError A
    → (VoiceError → Command (Unit {0}))
    → (A → Command (Unit {0}))
    → Command (Unit {0})
on_result (ok a) failed done = done a
on_result (err e) failed done = failed e
on_result panic failed done = lift panic

unfoldable pub rollover_matching_voice_context :
    Surroundings → VoiceContext → Option String → ℕ → Command (Unit {0})
rollover_matching_voice_context env new_voice resume_video_id rollover_epoch = do
  updating invalidate_playback
  resume_playback_epoch ← asking (λ rt. rt.playback_epoch)
  send_media_command (stop_media false)
  await_others env 3
  reconnecting_event ← in_section reconnecting
  emit reconnecting_event
  await_others env 4
  session ← lift (
      ok_or env.replaced_voice
        (invalid_state "voice reconnect refresh missing active voice session"))
  reconnected_event ← in_section (reconnected (record session { voice_context = new_voice }))
  emit reconnected_event
  resume_track env resume_video_id resume_playback_epoch rollover_epoch

abbrev rollover_reconnect : Surroundings → VoiceContext → Option String → ℕ → Command (Unit {0})
rollover_reconnect env new_voice resume_video_id rollover_epoch = do
  updating advance_transport_generation
  updating invalidate_playback
  send_media_command (stop_media false)
  await_others env 3
  resume_playback_epoch ← asking (λ rt. rt.playback_epoch)
  reconnecting_event ← in_section reconnecting
  emit reconnecting_event
  await_others env 4
  on_result (env.connect new_voice)
      (rollover_failed env resume_video_id resume_playback_epoch rollover_epoch)
      (λ session. do
        await_others env 5
        on_result (env.settle session)
            (rollover_failed env resume_video_id resume_playback_epoch rollover_epoch)
            (rollover_connected env resume_video_id resume_playback_epoch rollover_epoch))

abbrev active_track : Snapshot → Result RuntimeError (Option String)
active_track s =
    Common.and_ok (ensure_active_voice_session s Readiness.update_voice_context) s.current_video_id

unfoldable pub rollover_voice_context : Surroundings → VoiceContext → Command (Unit {0})
rollover_voice_context env new_voice = do
  resume_video_id ← reading active_track
  rollover_epoch ← stepping begin_rollover
  unless (not env.media_owner_is_active) do return_session env false 1; updating invalidate_playback
  await_others env 2
  (if current_voice_context_matches env.current_voice new_voice
      then rollover_matching_voice_context env new_voice resume_video_id rollover_epoch
      else rollover_reconnect env new_voice resume_video_id rollover_epoch)

abbrev refresh_paused : Surroundings → VoiceContext → Command (Unit {0})
refresh_paused env new_voice = do
  unless env.media_owner_is_active (lift env.suspend)
  await_others env 1
  refreshed ← in_section (refresh_paused_voice_context new_voice)
  emit refreshed

unfoldable pub update_voice_context : Surroundings → VoiceContext → Command (Unit {0})
update_voice_context env new_voice = do
  paused ← reading (λ s.
      Common.and_ok (ensure_active_voice_session s Readiness.update_voice_context)
        (is_paused s.state))
  await_others env 0
  (if paused then refresh_paused env new_voice else rollover_voice_context env new_voice)

-- What follows the start of resolving, in `play_with_epoch`, is the argument.
unfoldable pub play_with_epoch :
    Surroundings → (ℕ → Command (Unit {0})) → String → ℕ → Command (Unit {0})
play_with_epoch env perform video_id playback_epoch = do
  hint ← reading (λ s. ok (resume_position_hint video_id s))
  await_others env 9
  resolving_event ← in_section (play_resolving video_id playback_epoch hint)
  unless (not (Readiness.is_some resolving_event))
      do emit resolving_event; unless (not env.has_playback) (perform playback_epoch)

unfoldable pub play : Surroundings → (ℕ → Command (Unit {0})) → String → Command (Unit {0})
play env perform video_id = do
  playback_epoch ← stepping begin_playback
  play_with_epoch env perform video_id playback_epoch

unfoldable pub resume_after_rollover :
    Surroundings → (ℕ → Command (Unit {0})) → String → ℕ → ℕ → Command (Unit {0})
resume_after_rollover env perform video_id resume_attempt_epoch rollover_epoch = do
  current ← asking (rollover_resume_is_still_intended video_id resume_attempt_epoch rollover_epoch)
  unless (not current) do
    on_err (play_with_epoch env perform video_id resume_attempt_epoch) (λ e. do
      still_current ←
          asking (rollover_resume_is_still_intended video_id resume_attempt_epoch rollover_epoch)
      unless (not still_current) do
        quiesce_current_transport env
        event ← in_section (interrupt_playback (env.resume_failed e))
        emit event)
