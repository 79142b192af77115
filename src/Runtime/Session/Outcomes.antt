-- ===== src/Runtime/Session/Outcomes.antt =====
-- What the commands leave, whatever other commands do at their awaits.
use discord_voice_service.Common.{
  ℕ, ◌≡◌, refl, ◌⊎◌, inl, inr, Bool, true, false, Option, List, [], some, none, Result, ok, err,
  ◌>>=◌, panic, if◌then◌else◌, arith,
}
use discord_voice_service.Voice.Error.{VoiceError}
use discord_voice_service.Runtime.State.{
  Snapshot, connecting_voice, voice_ready, playing, paused, default_snapshot,
}
use discord_voice_service.Runtime.Readiness.{
  ensure_joinable_session, ensure_active_voice_session, ensure_track_loaded, ensure_pauseable_track,
  ensure_resumable_track,
}
use discord_voice_service.Runtime.Session.Store.{
  VoiceContext, ConnectedVoiceSession, VoiceSessionRuntime, invalidate_rollover,
  invalidate_playback, defer_playback_reset, advance_transport_generation,
}
use discord_voice_service.Runtime.Session.Sections.{
  apply_voice_context, apply_rollover_state, join_connecting, join_finished, pause_check,
  resume_check, stopped, left,
}
use discord_voice_service.Runtime.Session.Sections
use discord_voice_service.Runtime.Error.{RuntimeError}
use discord_voice_service.Runtime.Session.Events.{SessionEventRecord}
use discord_voice_service.Runtime.Session.Interleaving.{Section, interleave}
use discord_voice_service.Runtime.Session.Dispatch.{SessionCommand, handle_command}
use discord_voice_service.Runtime.Session.Dispatch
use discord_voice_service.Runtime.Session.Surroundings.{Surroundings, Command, continue}
use discord_voice_service.Runtime.Session.Commands.{
  join_voice, pause, announce_resume, resume, stop, leave_voice,
}

abbrev pub IsOk : Command (Unit {0}) → VoiceSessionRuntime → Type 0
IsOk command rt = (command rt).2 ≡ ok tt

abbrev pub state_after : Command (Unit {0}) → VoiceSessionRuntime → Snapshot
state_after command rt = (command rt).0.state

-- The voice session that `join_voice` has at its end.
abbrev pub connection : Surroundings → VoiceContext → Result VoiceError ConnectedVoiceSession
connection env context = env.connect context >>= env.settle

-- The commands that bring the session to a state of their own.
pub data Settling : Type 0 where
  joining : VoiceContext → Settling
  pausing : Settling
  resuming : Settling
  stopping : Settling
  leaving : Settling

abbrev pub to_command : Settling → SessionCommand
to_command (joining context) = Dispatch.join_voice context
to_command pausing = Dispatch.pause
to_command resuming = Dispatch.resume
to_command stopping = Dispatch.stop
to_command leaving = Dispatch.leave_voice

-- In the channel of a session, without a track, and ready exactly if the session is connected.
abbrev JoinedTo : Result VoiceError ConnectedVoiceSession → Snapshot → Type 0
JoinedTo (ok session) s =
    (s.guild_id ≡ some session.voice_context.guild_id)
    × (s.channel_id ≡ some session.voice_context.channel_id)
    × (s.current_video_id ≡ none)
    × (s.state ≡ (if session.is_connected then voice_ready else connecting_voice))
JoinedTo (err e) s = ⊥
JoinedTo panic s = ⊥

abbrev pub Settled : Surroundings → Settling → Snapshot → Type 0
Settled env (joining context) s = JoinedTo (connection env context) s
Settled env pausing s = s.state ≡ paused
Settled env resuming s = s.state ≡ playing
Settled env stopping s = (s.state ≡ voice_ready) × (s.current_video_id ≡ none)
Settled env leaving s = s ≡ default_snapshot

-- What other commands do after the last write of a command.
abbrev pub after_write : Surroundings → Settling → List Section
after_write env (joining context) = []
after_write env pausing = []
after_write env resuming = env.others 1
after_write env stopping = []
after_write env leaving = env.others 2

-- The command has brought the runtime to its state, and then only others have gone on.
abbrev pub Settles : Surroundings → Settling → VoiceSessionRuntime → Type 0
Settles env command final =
    (written : VoiceSessionRuntime) × Settled env command written.state
    × ((final ≡ written) ⊎ (final ≡ interleave (after_write env command) written))

resume_check-playing : (s : Snapshot) → resume_check s ≡ ok true → s.state ≡ playing
unfolding resume_check ensure_active_voice_session ensure_track_loaded ensure_resumable_track
resume_check-playing s h = ground arith

resuming-playing :
    (rt : VoiceSessionRuntime) (event : Option SessionEventRecord)
    → (Sections.resuming rt).1 ≡ ok event
    → (Sections.resuming rt).0.state.state ≡ playing
unfolding Sections.resuming ensure_active_voice_session ensure_track_loaded ensure_resumable_track
resuming-playing rt event h = ground arith

announced-Settles :
    (env : Surroundings) (now : VoiceSessionRuntime)
    (emission : Result RuntimeError (Option SessionEventRecord))
    → ((event : Option SessionEventRecord) → emission ≡ ok event → now.state.state ≡ playing)
    → (continue (announce_resume env) (now, [], emission)).2 ≡ ok tt
    → Settles env resuming (continue (announce_resume env) (now, [], emission)).0
announced-Settles env now (ok none) played h = (now, played none refl, inl refl)
announced-Settles env now (ok (some event)) played h = (now, played (some event) refl, inr refl)
announced-Settles env now (err e) played h = absurd (ground arith)
announced-Settles env now panic played h = absurd (ground arith)

resume-Settles :
    (env : Surroundings) (rt : VoiceSessionRuntime)
    → IsOk (resume env) rt
    → Settles env resuming (resume env rt).0
unfolding resume
resume-Settles env rt h = from_check (resume_check rt.state) refl
  where
    now : VoiceSessionRuntime
    now = interleave (env.others 0) rt

    from_check :
        (check : Result RuntimeError Bool)
        → resume_check rt.state ≡ check
        → Settles env resuming (resume env rt).0
    from_check (ok true) e = (rt, resume_check-playing rt.state e, inl (rw e refl))
    from_check (ok false) e = rw e (
        announced-Settles env (Sections.resuming now).0 (Sections.resuming now).1
          (resuming-playing now) (rw e at h))
    from_check (err x) e = absurd (ground arith)
    from_check panic e = absurd (ground arith)

-- Whatever other commands do at the awaits of a command that succeeds: a `pause` brings the session to
-- be paused, and a `resume` to playing; a `stop` makes it ready, without a track; a `leave_voice` writes
-- the initial snapshot; and a `join_voice` brings it to the channel of the voice session that was
-- connected and settled, without a track, and ready exactly if that session is connected. The runtime
-- is left so, or as other commands then make it at the await that a `resume` or a `leave_voice` has after
-- its write.
pub handle_command-Settled :
    (env : Surroundings) (perform : ℕ → Command (Unit {0})) (command : Settling)
    (rt : VoiceSessionRuntime)
    → IsOk (handle_command env perform (to_command command)) rt
    → Settles env command (handle_command env perform (to_command command) rt).0
unfolding handle_command join_voice pause stop leave_voice pause_check join_connecting join_finished
    Sections.pausing stopped left apply_voice_context apply_rollover_state ensure_joinable_session
    ensure_active_voice_session ensure_track_loaded ensure_pauseable_track
handle_command-Settled env perform (joining context) rt h =
    ((join_voice env context rt).0, ground arith, inl refl)
handle_command-Settled env perform pausing rt h = ((pause env rt).0, ground arith, inl refl)
handle_command-Settled env perform resuming rt h = resume-Settles env rt h
handle_command-Settled env perform stopping rt h = ((stop env rt).0, ground arith, inl refl)
handle_command-Settled env perform leaving rt h =
    let begun =
      advance_transport_generation
        (defer_playback_reset (invalidate_playback (invalidate_rollover rt))) in
    (
      (left (interleave (env.others 1) (interleave (env.others 0) begun))).0,
      refl,
      inr (ground arith),
    )
