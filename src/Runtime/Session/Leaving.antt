-- ===== src/Runtime/Session/Leaving.antt =====
-- A leave that runs at the same time as a stop.
use discord_voice_service.Common.{ℕ, ◌≡◌, refl, List, [], ◌∷◌, ◌++◌, err, arith, ap}
use discord_voice_service.Runtime.Error.{RuntimeError, invalid_state}
use discord_voice_service.Runtime.State.{default_snapshot, voice_ready}
use discord_voice_service.Runtime.Readiness.{ensure_joinable_session, ensure_active_voice_session}
use discord_voice_service.Runtime.Session.Store.{VoiceContext, VoiceSessionRuntime}
use discord_voice_service.Runtime.Session.Sections.{stopped, left}
use discord_voice_service.Runtime.Session.Interleaving.{Section, run_section, interleave}
use discord_voice_service.Runtime.Session.Interleaving
use discord_voice_service.Runtime.Session.Surroundings.{Surroundings, Command}
use discord_voice_service.Runtime.Session.Dispatch.{join_voice, stop, handle_command}
use discord_voice_service.Runtime.Session.Commands
use discord_voice_service.Runtime.Session.Refused.{first_test, handle_command-refused}
use discord_voice_service.Runtime.Session.Outcomes.{IsOk, state_after}

interleave-append :
    (xs ys : List Section) (rt : VoiceSessionRuntime)
    → interleave (xs ++ ys) rt ≡ interleave ys (interleave xs rt)
interleave-append [] ys rt = refl
interleave-append (x ∷ xs) ys rt = interleave-append xs ys (run_section x rt).0

abbrev pub joining_refused : RuntimeError
joining_refused = invalid_state "join_voice requires an idle session"

abbrev pub stopping_refused : RuntimeError
stopping_refused = invalid_state "stop requires active voice session"

state-leave :
    (others xs : List Section) (rt : VoiceSessionRuntime)
    → others ≡ xs ++ (Interleaving.leave ∷ [])
    → (interleave others rt).state ≡ default_snapshot
unfolding left
state-leave others xs rt e =
    rw e (ap (λ now. now.state) (interleave-append xs (Interleaving.leave ∷ []) rt))

stop-during_leave_state :
    (env : Surroundings) (rt : VoiceSessionRuntime)
    → ((now : VoiceSessionRuntime) → (interleave (env.others 1) now).state ≡ default_snapshot)
    → IsOk (Commands.stop env) rt
    → state_after (Commands.stop env) rt ≡ record default_snapshot { state = voice_ready }
unfolding Commands.stop stopped ensure_active_voice_session
stop-during_leave_state env rt raced stopped_ok = grind (arith, raced)

-- If the write of a `leave_voice` is the last thing that happens while a `stop` that succeeds sends
-- its silence, the session ends up ready and in no channel: from there neither joining nor stopping is
-- accepted.
pub stop-during-leave_voice :
    (env later : Surroundings) (perform : ℕ → Command (Unit {0})) (context : VoiceContext)
    (before : List Section) (rt : VoiceSessionRuntime)
    → env.others 1 ≡ before ++ (Interleaving.leave ∷ [])
    → IsOk (handle_command env perform stop) rt
    → let after = (handle_command env perform stop rt).0 in
      (after.state ≡ record default_snapshot { state = voice_ready })
      × (handle_command later perform (join_voice context) after ≡ (after, [], err joining_refused))
      × (handle_command later perform stop after ≡ (after, [], err stopping_refused))
unfolding handle_command ensure_joinable_session ensure_active_voice_session
stop-during-leave_voice env later perform context before rt raced stopped_ok =
    let after = (Commands.stop env rt).0 in
    let stuck =
      stop-during_leave_state env rt (λ now. state-leave (env.others 1) before now raced)
        stopped_ok in
    (
      stuck,
      handle_command-refused later perform (join_voice context) after joining_refused
          (ap (first_test (join_voice context)) stuck),
      handle_command-refused later perform stop after stopping_refused (ap (first_test stop) stuck),
    )
