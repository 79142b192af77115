-- ===== src/Runtime/Readiness/Commands.antt =====
-- readiness.rs: which commands a snapshot of a session accepts.
use discord_voice_service.Common.{
  ◌≡◌, refl, Bool, true, false, ◌&&◌, Result, ok, arith, List, [], ◌∷◌,
}
use discord_voice_service.Runtime.Error.{RuntimeError}
use discord_voice_service.Runtime.State.{Snapshot}
use discord_voice_service.Runtime.Readiness.{
  ReadinessSnapshot, is_ready, mark_runtime_booted, mark_ytmusic_healthy, mark_ytmusic_unhealthy,
  is_some, is_playing, is_paused_or_playing, Action, ensure_joinable_session,
  ensure_active_voice_session, ensure_track_loaded, ensure_pauseable_track, ensure_resumable_track,
}

abbrev pub is_accepted : Result RuntimeError (Unit {0}) → Bool
is_accepted (ok u) = true
is_accepted _ = false

-- A session is in a voice channel.
abbrev pub in_channel : Snapshot → Bool
in_channel s = is_some s.guild_id && is_some s.channel_id

-- Which snapshots accept which command: joining wants an idle session with nothing set, the others a
-- session in a channel, loading one with a track, pausing one that plays and resuming one that is
-- paused or plays; and no snapshot accepts both joining and another command.
pub commands-accepted :
    (s : Snapshot) (action : Action)
    → (is_accepted (ensure_active_voice_session s action) ≡ in_channel s)
      × (is_accepted (ensure_track_loaded s action) ≡ (in_channel s && is_some s.current_video_id))
      × (is_accepted (ensure_pauseable_track s)
          ≡ (in_channel s && (is_some s.current_video_id && is_playing s.state)))
      × (is_accepted (ensure_resumable_track s)
          ≡ (in_channel s && (is_some s.current_video_id && is_paused_or_playing s.state)))
      × ((is_accepted (ensure_joinable_session s)
            && is_accepted (ensure_active_voice_session s action))
          ≡ false)
commands-accepted s action = (
  unfold ensure_active_voice_session in ground arith,
  unfold ensure_track_loaded ensure_active_voice_session in ground arith,
  unfold ensure_pauseable_track ensure_track_loaded ensure_active_voice_session in ground arith,
  unfold ensure_resumable_track ensure_track_loaded ensure_active_voice_session in ground arith,
  unfold ensure_joinable_session ensure_active_voice_session in ground arith,
)

-- The marks of a readiness, in the order of their calls.
pub data Mark : Type 0 where
  booted : Mark
  healthy : Mark
  unhealthy : Mark

abbrev pub mark : Mark → ReadinessSnapshot → ReadinessSnapshot
mark booted s = mark_runtime_booted s
mark healthy s = mark_ytmusic_healthy s
mark unhealthy s = mark_ytmusic_unhealthy s

abbrev pub mark_all : List Mark → ReadinessSnapshot → ReadinessSnapshot
mark_all [] s = s
mark_all (m ∷ ms) s = mark_all ms (mark m s)

-- The runtime has booted at some time, or had at the start.
abbrev pub has_booted : Bool → List Mark → Bool
has_booted before [] = before
has_booted before (booted ∷ ms) = has_booted true ms
has_booted before (healthy ∷ ms) = has_booted before ms
has_booted before (unhealthy ∷ ms) = has_booted before ms

-- The last report on ytmusic, or what held at the start.
abbrev pub last_health : Bool → List Mark → Bool
last_health before [] = before
last_health before (booted ∷ ms) = last_health before ms
last_health before (healthy ∷ ms) = last_health true ms
last_health before (unhealthy ∷ ms) = last_health false ms

-- After any marks the service is ready exactly if the runtime has booted and the last report on
-- ytmusic was that it is healthy.
pub is_ready-mark_all :
    (ms : List Mark) (s : ReadinessSnapshot)
    → is_ready (mark_all ms s)
      ≡ (has_booted s.runtime_booted ms && last_health s.ytmusic_healthy ms)
unfolding is_ready mark_runtime_booted mark_ytmusic_healthy mark_ytmusic_unhealthy
is_ready-mark_all [] s = refl
is_ready-mark_all (booted ∷ ms) s = is_ready-mark_all ms (mark_runtime_booted s)
is_ready-mark_all (healthy ∷ ms) s = is_ready-mark_all ms (mark_ytmusic_healthy s)
is_ready-mark_all (unhealthy ∷ ms) s = is_ready-mark_all ms (mark_ytmusic_unhealthy s)
