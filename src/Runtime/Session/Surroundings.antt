-- ===== src/Runtime/Session/Surroundings.antt =====
-- Commands as state transformers: a command runs its sections one after another, and at each of its
-- awaits the sections of other commands are interleaved. What it emits and sends is listed in order.
use discord_voice_service.Common.{
  ℕ, Bool, String, Option, none, some, List, [], ◌∷◌, ◌++◌, Result, ok, err, panic,
}
use discord_voice_service.Voice.Error.{VoiceError}
use discord_voice_service.Runtime.Error.{RuntimeError}
use discord_voice_service.Runtime.State.{Snapshot}
use discord_voice_service.Runtime.Session.Events.{SessionEventRecord, MediaCommand}
use discord_voice_service.Runtime.Session.Store.{
  VoiceContext, ConnectedVoiceSession, VoiceSessionRuntime,
}
use discord_voice_service.Runtime.Session.Sections.{Emission}
use discord_voice_service.Runtime.Session.Interleaving.{Section, interleave}

-- What a command finds outside the snapshot.
pub record Surroundings : Type 0 where
  -- The sections that other tasks run at the command's awaits, by the number of the await.
  pub others : ℕ → List Section
  -- `ConnectedVoiceSession::connect`, and `settle_initial_dave_for_join` of what it returned.
  pub connect : VoiceContext → Result VoiceError ConnectedVoiceSession
  pub settle : ConnectedVoiceSession → Result VoiceError ConnectedVoiceSession
  pub media_owner_is_active : Bool
  -- What waiting for the driver of the media returns.
  pub media_owner_wait : Result RuntimeError (Unit {0})
  -- The test of `stop` and `quiesce_current_transport` on the voice session, and what sending the
  -- silence returns.
  pub boundary_due : Bool
  pub stop_boundary : Result RuntimeError (Unit {0})
  -- What suspending the media of the session returns, where a paused session is renewed.
  pub suspend : Result RuntimeError (Unit {0})
  -- The voice session at the test of a rollover, and when its context is replaced.
  pub current_voice : Option ConnectedVoiceSession
  pub replaced_voice : Option ConnectedVoiceSession
  pub has_playback : Bool
  -- The reasons `voice reconnect failed: …` and `failed to resume playback after voice reconnect: …`.
  pub reconnect_failed : VoiceError → String
  pub resume_failed : RuntimeError → String

pub data Effect : Type 0 where
  emitted : SessionEventRecord → Effect
  -- A call of `send_media_command`, which reaches the driver if there is one.
  sent : MediaCommand → Effect
  -- A task is spawned to resume a track: the epochs of its playback and of its rollover.
  spawned : (video_id : String) (resume_attempt_epoch rollover_epoch : ℕ) → Effect

abbrev pub Outcome : Type 0 → Type 0
Outcome A = VoiceSessionRuntime × List Effect × Result RuntimeError A

abbrev pub Command : Type 0 → Type 0
Command A = VoiceSessionRuntime → Outcome A

abbrev pub pure : {A : Type 0} → A → Command A
pure a rt = (rt, [], ok a)

abbrev pub after : {A : Type 0} → List Effect → Outcome A → Outcome A
after effects (rt, more, result) = (rt, effects ++ more, result)

abbrev pub continue : {A B : Type 0} → (A → Command B) → Outcome A → Outcome B
continue f (rt, effects, ok a) = after effects (f a rt)
continue f (rt, effects, err e) = (rt, effects, err e)
continue f (rt, effects, panic) = (rt, effects, panic)

infixl 5 ◌>>=◌ ◌>>◌
abbrev pub ◌>>=◌ : {A B : Type 0} → Command A → (A → Command B) → Command B
(m >>= f) rt = continue f (m rt)

abbrev pub ◌>>◌ : {B : Type 0} → Command (Unit {0}) → Command B → Command B
(m >> k) rt = continue (λ _. k) (m rt)

-- An early return, or the rest.
abbrev pub unless : Bool → Command (Unit {0}) → Command (Unit {0})
unless Bool.true rest rt = pure tt rt
unless Bool.false rest rt = rest rt

-- `if let Err(e) = first { … }`
abbrev handle : (RuntimeError → Command (Unit {0})) → Outcome (Unit {0}) → Outcome (Unit {0})
handle f (rt, effects, ok u) = (rt, effects, ok u)
handle f (rt, effects, err e) = after effects (f e rt)
handle f (rt, effects, panic) = (rt, effects, panic)

abbrev pub on_err : Command (Unit {0}) → (RuntimeError → Command (Unit {0})) → Command (Unit {0})
on_err m f rt = handle f (m rt)

-- A result of code outside the snapshot, with `?`.
abbrev pub lift : {A : Type 0} → Result RuntimeError A → Command A
lift result rt = (rt, [], result)

-- A section that only reads.
abbrev pub reading : {A : Type 0} → (Snapshot → Result RuntimeError A) → Command A
reading f rt = (rt, [], f rt.state)

abbrev pub asking : {A : Type 0} → (VoiceSessionRuntime → A) → Command A
asking f rt = (rt, [], ok (f rt))

abbrev pub stepping : {A : Type 0} → (VoiceSessionRuntime → A × VoiceSessionRuntime) → Command A
stepping f rt = ((f rt).1, [], ok (f rt).0)

abbrev pub updating : (VoiceSessionRuntime → VoiceSessionRuntime) → Command (Unit {0})
updating f rt = (f rt, [], ok tt)

abbrev pub in_section :
    (VoiceSessionRuntime → VoiceSessionRuntime × Emission) → Command (Option SessionEventRecord)
in_section f rt = ((f rt).0, [], (f rt).1)

abbrev emissions : Option SessionEventRecord → List Effect
emissions none = []
emissions (some event) = emitted event ∷ []

abbrev pub emit : Option SessionEventRecord → Command (Unit {0})
emit event rt = (rt, emissions event, ok tt)

abbrev pub spawn_resume : String → ℕ → ℕ → Command (Unit {0})
spawn_resume video_id resume_attempt_epoch rollover_epoch rt =
    (rt, spawned video_id resume_attempt_epoch rollover_epoch ∷ [], ok tt)

abbrev pub send_media_command : MediaCommand → Command (Unit {0})
send_media_command command rt = (rt, sent command ∷ [], ok tt)

-- The await of that number.
abbrev pub await_others : Surroundings → ℕ → Command (Unit {0})
await_others env n rt = (interleave (env.others n) rt, [], ok tt)
