-- ===== src/Runtime/Session/Commands.antt =====
-- The commands that join, pause, resume, stop and leave.
use discord_voice_service.Common.{ℕ, Option, Bool, true, false, not, map_err}
use discord_voice_service.Runtime.Error.{voice}
use discord_voice_service.Runtime.Readiness.{
  is_playing, ensure_active_voice_session, ensure_track_loaded, ensure_pauseable_track,
  ensure_resumable_track,
}
use discord_voice_service.Runtime.Readiness
use discord_voice_service.Runtime.Session.Events.{
  SessionEventRecord, pause_media, resume_media, stop_media,
}
use discord_voice_service.Runtime.Session.Store.{
  VoiceContext, invalidate_rollover, invalidate_playback, defer_playback_reset,
  advance_transport_generation,
}
use discord_voice_service.Runtime.Session.Sections.{
  join_connecting, join_finished, pause_check, pausing, resume_check, resuming, stopped, left,
}
use discord_voice_service.Runtime.Session.Surroundings.{
  Surroundings, Command, unless, ◌>>=◌, ◌>>◌, lift, reading, updating, in_section, emit,
  send_media_command, await_others,
}

unfoldable pub join_voice : Surroundings → VoiceContext → Command (Unit {0})
join_voice env context = do
  connecting_event ← in_section (join_connecting context)
  emit connecting_event
  await_others env 0
  session ← lift (map_err voice (env.connect context))
  await_others env 1
  session ← lift (map_err voice (env.settle session))
  ready_event ← in_section (join_finished session)
  emit ready_event

unfoldable pub pause : Surroundings → Command (Unit {0})
pause env = do
  already_paused ← reading pause_check
  unless already_paused
      do send_media_command pause_media; await_others env 0; event ← in_section pausing; emit event

-- What follows the section of `resume`: a redundant resume has no event, and sends nothing.
abbrev pub announce_resume : Surroundings → Option SessionEventRecord → Command (Unit {0})
announce_resume env event = do
  unless (not (Readiness.is_some event)) do await_others env 1; send_media_command resume_media
  emit event

abbrev pub resume_unless_playing : Surroundings → Bool → Command (Unit {0})
resume_unless_playing env already_playing =
    unless already_playing
      do await_others env 0; event ← in_section resuming; announce_resume env event

unfoldable pub resume : Surroundings → Command (Unit {0})
resume env = do already_playing ← reading resume_check; resume_unless_playing env already_playing

-- The driver of the media is asked to stop and gives the voice session back, before playback is
-- invalidated if it was active, and after otherwise.
abbrev pub return_session : Surroundings → Bool → ℕ → Command (Unit {0})
return_session env account_popped_frame_as_skipped await = do
  send_media_command (stop_media account_popped_frame_as_skipped)
  await_others env await
  lift env.media_owner_wait

unfoldable pub stop : Surroundings → Command (Unit {0})
stop env = do
  reading (λ s. ensure_active_voice_session s Readiness.stop)
  unless (not env.media_owner_is_active) (return_session env false 0)
  updating invalidate_playback
  updating defer_playback_reset
  unless env.media_owner_is_active (return_session env true 0)
  await_others env 1
  unless (not env.boundary_due) (lift env.stop_boundary)
  event ← in_section stopped
  emit event

unfoldable pub leave_voice : Surroundings → Command (Unit {0})
leave_voice env = do
  updating invalidate_rollover
  updating invalidate_playback
  updating defer_playback_reset
  updating advance_transport_generation
  send_media_command (stop_media true)
  await_others env 0
  unless (not env.media_owner_is_active) (lift env.media_owner_wait)
  await_others env 1
  written ← in_section left
  await_others env 2
  emit written
