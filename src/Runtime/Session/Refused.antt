-- ===== src/Runtime/Session/Refused.antt =====
-- What a command that the snapshot does not allow does, and pausing undone by resuming.
use discord_voice_service.Common.{ℕ, ◌≡◌, Bool, false, [], ◌∷◌, Result, ok, err, panic, arith}
use discord_voice_service.Runtime.Error.{RuntimeError}
use discord_voice_service.Runtime.State.{Snapshot, paused}
use discord_voice_service.Runtime.Readiness.{
  ensure_joinable_session, ensure_active_voice_session, ensure_track_loaded, ensure_pauseable_track,
  ensure_resumable_track,
}
use discord_voice_service.Runtime.Readiness
use discord_voice_service.Runtime.Session.Events.{from_snapshot, pause_media, resume_media}
use discord_voice_service.Runtime.Session.Events
use discord_voice_service.Runtime.Session.Store.{VoiceSessionRuntime}
use discord_voice_service.Runtime.Session.Sections.{
  join_connecting, pause_check, resume_check, pausing, resuming,
}
use discord_voice_service.Runtime.Session.Surroundings.{Surroundings, Command, emitted, sent}
use discord_voice_service.Runtime.Session.Dispatch.{
  SessionCommand, join_voice, update_voice_context, play, pause, resume, stop, leave_voice,
  handle_command,
}
use discord_voice_service.Runtime.Session.Commands
use discord_voice_service.Runtime.Session.Renewal

abbrev checked : Result RuntimeError Bool → Result RuntimeError (Unit {0})
checked (ok b) = ok tt
checked (err e) = err e
checked panic = panic

-- The test that a command makes first. Playing begins a new epoch before its test, and leaving is
-- always allowed.
abbrev pub first_test : SessionCommand → Snapshot → Result RuntimeError (Unit {0})
first_test (join_voice context) s = ensure_joinable_session s
first_test (update_voice_context context) s =
    ensure_active_voice_session s Readiness.update_voice_context
first_test (play video_id) s = ok tt
first_test pause s = checked (pause_check s)
first_test resume s = checked (resume_check s)
first_test stop s = ensure_active_voice_session s Readiness.stop
first_test leave_voice s = ok tt

-- A command whose first test refuses the snapshot returns the error of the test, changes nothing in
-- the runtime, and emits and sends nothing.
pub handle_command-refused :
    (env : Surroundings) (perform : ℕ → Command (Unit {0})) (command : SessionCommand)
    (rt : VoiceSessionRuntime) (e : RuntimeError)
    → first_test command rt.state ≡ err e
    → handle_command env perform command rt ≡ (rt, [], err e)
unfolding handle_command Commands.join_voice Renewal.update_voice_context Commands.pause
    Commands.resume Commands.stop join_connecting
handle_command-refused env perform (join_voice context) rt e h = ground arith
handle_command-refused env perform (update_voice_context context) rt e h = ground arith
handle_command-refused env perform (play video_id) rt e h = cc
handle_command-refused env perform pause rt e h = ground arith
handle_command-refused env perform resume rt e h = ground arith
handle_command-refused env perform stop rt e h = ground arith
handle_command-refused env perform leave_voice rt e h = cc

-- Where nothing else happens in between, a track that plays is paused, with the driver of the media
-- told first and the event after it; resuming then tells the driver, emits the event and restores the
-- runtime as it was.
pub resume-pause :
    (env : Surroundings) (perform : ℕ → Command (Unit {0})) (rt : VoiceSessionRuntime)
    → env.others 0 ≡ []
    → env.others 1 ≡ []
    → pause_check rt.state ≡ ok false
    → let halted = record rt { state = record rt.state { state = paused } } in
      (handle_command env perform pause rt ≡ (
        halted,
        sent pause_media ∷ emitted (from_snapshot Events.paused halted.state) ∷ [],
        ok tt,
      ))
      × (handle_command env perform resume halted
          ≡ (rt, sent resume_media ∷ emitted (from_snapshot Events.playing rt.state) ∷ [], ok tt))
unfolding handle_command Commands.pause Commands.resume pause_check resume_check pausing resuming
    from_snapshot ensure_active_voice_session ensure_track_loaded ensure_pauseable_track
    ensure_resumable_track
resume-pause env perform rt alone alone_later h = (ground arith, ground arith)
