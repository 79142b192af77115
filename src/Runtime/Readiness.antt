-- ===== src/Runtime/Readiness.antt =====
-- crates/discord-voice-service-runtime/src/session/readiness.rs: when the service is ready, and which
-- commands a session accepts.
pub mod Commands
use discord_voice_service.Common.{
  Bool, true, false, not, ◌&&◌, String, Option, none, some, if◌then◌else◌, Result, ok, err, fail_if,
  ◌>>◌,
}
use discord_voice_service.Runtime.Error.{RuntimeError, invalid_state}
use discord_voice_service.Runtime.State.{
  SessionState, idle, connecting_voice, voice_ready, resolving_track, buffering, playing, paused,
  stopping, error, Snapshot,
}

pub record ReadinessSnapshot : Type 0 where
  pub runtime_booted : Bool
  pub ytmusic_healthy : Bool

abbrev pub default_readiness : ReadinessSnapshot
default_readiness = record { runtime_booted = false; ytmusic_healthy = false }

unfoldable pub is_ready : ReadinessSnapshot → Bool
is_ready s = s.runtime_booted && s.ytmusic_healthy

-- What the marking operations leave under the lock.
unfoldable pub mark_runtime_booted : ReadinessSnapshot → ReadinessSnapshot
mark_runtime_booted s = record s { runtime_booted = true }

unfoldable pub mark_ytmusic_healthy : ReadinessSnapshot → ReadinessSnapshot
mark_ytmusic_healthy s = record s { ytmusic_healthy = true }

unfoldable pub mark_ytmusic_unhealthy : ReadinessSnapshot → ReadinessSnapshot
mark_ytmusic_unhealthy s = record s { ytmusic_healthy = false }

abbrev pub is_some {ℓ} : {A : Type ℓ} → Option A → Bool
is_some none = false
is_some (some a) = true

abbrev pub is_idle : SessionState → Bool
is_idle idle = true
is_idle _ = false

abbrev pub is_playing : SessionState → Bool
is_playing playing = true
is_playing _ = false

abbrev pub is_paused_or_playing : SessionState → Bool
is_paused_or_playing paused = true
is_paused_or_playing playing = true
is_paused_or_playing _ = false

-- The action of a command, which the code passes by name.
pub data Action : Type 0 where
  play : Action
  pause : Action
  resume : Action
  stop : Action
  update_voice_context : Action
  other : Action

abbrev pub active_voice_message : Action → String
active_voice_message play = "play requires active voice session"
active_voice_message pause = "pause requires active voice session"
active_voice_message resume = "resume requires active voice session"
active_voice_message stop = "stop requires active voice session"
active_voice_message update_voice_context = "update_voice_context requires active voice session"
active_voice_message other = "command requires active voice session"

abbrev pub active_track_message : Action → String
active_track_message pause = "pause requires an active track"
active_track_message resume = "resume requires an active track"
active_track_message _ = "command requires an active track"

unfoldable pub ensure_joinable_session : Snapshot → Result RuntimeError (Unit {0})
ensure_joinable_session s =
    if is_idle s.state
      && (not (is_some s.guild_id)
          && (not (is_some s.channel_id) && not (is_some s.current_video_id)))
    then ok tt
    else err (invalid_state "join_voice requires an idle session")

unfoldable pub ensure_active_voice_session : Snapshot → Action → Result RuntimeError (Unit {0})
ensure_active_voice_session s action =
    if is_some s.guild_id && is_some s.channel_id
    then ok tt
    else err (invalid_state (active_voice_message action))

unfoldable pub ensure_track_loaded : Snapshot → Action → Result RuntimeError (Unit {0})
unfolding ensure_active_voice_session
ensure_track_loaded s action = do
  ensure_active_voice_session s action
  fail_if (not (is_some s.current_video_id)) (invalid_state (active_track_message action))

unfoldable pub ensure_pauseable_track : Snapshot → Result RuntimeError (Unit {0})
unfolding ensure_track_loaded
ensure_pauseable_track s = do
  ensure_track_loaded s pause
  fail_if (not (is_playing s.state)) (invalid_state "pause requires a playing track")

unfoldable pub ensure_resumable_track : Snapshot → Result RuntimeError (Unit {0})
unfolding ensure_track_loaded
ensure_resumable_track s = do
  ensure_track_loaded s resume
  fail_if (not (is_paused_or_playing s.state))
      (invalid_state "resume requires a paused or playing track")
