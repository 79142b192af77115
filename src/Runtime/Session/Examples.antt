-- ===== src/Runtime/Session/Examples.antt =====
-- The session runtime at concrete inputs.
use discord_voice_service.Common.{ℕ, ◌≡◌, refl, true, false, some, List, [], ◌∷◌, ok, err, arith}
use discord_voice_service.Voice.Error.{web_socket}
use discord_voice_service.Runtime.State.{default_snapshot, playing, voice_ready}
use discord_voice_service.Runtime.Session.Events.{from_snapshot, pause_media, resume_media}
use discord_voice_service.Runtime.Session.Events
use discord_voice_service.Runtime.Session.Store.{
  VoiceContext, ConnectedVoiceSession, VoiceSessionRuntime, new_runtime,
}
use discord_voice_service.Runtime.Session.Sections.{pause_check, resume_check, left, stopped}
use discord_voice_service.Runtime.Session.Sections
use discord_voice_service.Runtime.Error.{invalid_state}
use discord_voice_service.Runtime.Readiness.{
  ensure_active_voice_session, ensure_track_loaded, ensure_pauseable_track,
}
use discord_voice_service.Runtime.Session.Interleaving.{Section, interleave}
use discord_voice_service.Runtime.Session.Interleaving
use discord_voice_service.Runtime.Session.Invariant.{IsConsistent, interleave-IsConsistent}
use discord_voice_service.Runtime.Session.Superseded.{superseded_rollover-silent}
use discord_voice_service.Runtime.Session.Surroundings.{Surroundings, Command, pure}
use discord_voice_service.Runtime.Session.Renewal.{
  rollover_failed, rollover_connected, resume_after_rollover,
}
use discord_voice_service.Runtime.Session.Dispatch.{join_voice, pause, resume, stop, handle_command}
use discord_voice_service.Runtime.Session.Commands
use discord_voice_service.Runtime.Session.Outcomes.{IsOk, pausing, Settles, handle_command-Settled}
use discord_voice_service.Runtime.Session.Refused.{first_test}
use discord_voice_service.Runtime.Session.Leaving.{
  stop-during-leave_voice, joining_refused, stopping_refused,
}

abbrev context : VoiceContext
context = record {
  guild_id = "guild";
  channel_id = "channel";
  user_id = "bot";
  session_id = "session";
  endpoint = "endpoint";
  token = "token";
}

abbrev connected : ConnectedVoiceSession
connected = record {
  voice_context = context;
  is_connected = true;
  recovering = false;
  voice_reconnecting = false;
}

abbrev alone : Surroundings
alone = record {
  others = λ n. [];
  connect = λ c. ok connected;
  settle = λ s. ok s;
  media_owner_is_active = false;
  media_owner_wait = ok tt;
  boundary_due = true;
  stop_boundary = ok tt;
  suspend = ok tt;
  current_voice = some connected;
  replaced_voice = some connected;
  has_playback = true;
  reconnect_failed = λ e. "voice reconnect failed";
  resume_failed = λ e. "failed to resume playback after voice reconnect";
}

abbrev perform : ℕ → Command (Unit {0})
perform epoch = pure tt

abbrev on_air : VoiceSessionRuntime
on_air = record new_runtime {
  playback_epoch = 4;
  rollover_epoch = 2;
  state = record default_snapshot {
    state = playing;
    guild_id = some "guild";
    channel_id = some "channel";
    current_video_id = some "video";
  };
}

-- A track is played, paused and left while its last state is still to come.
abbrev sections : List Section
sections =
    Interleaving.connecting context
    ∷ Interleaving.joined connected
    ∷ Interleaving.playback_begun
    ∷ Interleaving.resolving "video" 1 0
    ∷ Interleaving.playback Events.playing "video" 1 251 10 0
    ∷ Interleaving.pause
    ∷ Interleaving.rollover_begun
    ∷ Interleaving.playback_invalidated
    ∷ Interleaving.leave
    ∷ Interleaving.playback Events.playing "video" 1 251 10 20
    ∷ []

interleave-IsConsistent_example : IsConsistent (interleave sections new_runtime).state
interleave-IsConsistent_example = interleave-IsConsistent sections new_runtime (refl, refl, refl)

superseded_rollover-silent_example :
    let now = interleave sections on_air in
    (rollover_failed alone (some "video") 4 2 web_socket now ≡ (now, [], ok tt))
    × (rollover_connected alone (some "video") 4 2 connected now ≡ (now, [], ok tt))
    × (resume_after_rollover alone perform "video" 4 2 now ≡ (now, [], ok tt))
superseded_rollover-silent_example =
    superseded_rollover-silent alone perform sections on_air (some "video") "video" 4 web_socket
      connected (omega arith) (omega arith) (omega arith)

pausing-IsOk : IsOk (handle_command alone perform pause) on_air
unfolding handle_command Commands.pause pause_check Sections.pausing ensure_active_voice_session
    ensure_track_loaded ensure_pauseable_track
pausing-IsOk = refl

handle_command-Settled_example : Settles alone pausing (handle_command alone perform pause on_air).0
handle_command-Settled_example = handle_command-Settled alone perform pausing on_air pausing-IsOk

resume_refused :
    first_test resume new_runtime.state ≡ err (invalid_state "resume requires active voice session")
unfolding resume_check ensure_active_voice_session ensure_track_loaded
resume_refused = refl

pausing_allowed : pause_check on_air.state ≡ ok false
unfolding pause_check ensure_active_voice_session ensure_track_loaded ensure_pauseable_track
pausing_allowed = refl

-- The silence of a stop is sent while another command leaves.
abbrev left_meanwhile : Surroundings
left_meanwhile = record alone {
  others = λ n.
      Interleaving.rollover_invalidated ∷ Interleaving.playback_invalidated
      ∷ Interleaving.reset_deferred ∷ Interleaving.generation_advanced ∷ Interleaving.leave ∷ [];
}

stopping-IsOk : IsOk (handle_command left_meanwhile perform stop) on_air
unfolding handle_command Commands.stop stopped ensure_active_voice_session
stopping-IsOk = refl

stop-during-leave_voice_example :
    let after = (handle_command left_meanwhile perform stop on_air).0 in
    (after.state ≡ record default_snapshot { state = voice_ready })
    × (handle_command alone perform (join_voice context) after ≡ (after, [], err joining_refused))
    × (handle_command alone perform stop after ≡ (after, [], err stopping_refused))
stop-during-leave_voice_example =
    stop-during-leave_voice left_meanwhile alone perform context
      (Interleaving.rollover_invalidated ∷ Interleaving.playback_invalidated
        ∷ Interleaving.reset_deferred ∷ Interleaving.generation_advanced ∷ [])
      on_air refl stopping-IsOk
