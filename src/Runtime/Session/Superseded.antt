-- ===== src/Runtime/Session/Superseded.antt =====
-- A rollover holds the epoch of its start: once another rollover begins, or a `leave_voice`
-- invalidates it, what is left of it does nothing.
use discord_voice_service.Common.{
  ℕ, ◌+◌, ◌%◌, ◌^◌, ◌<◌, ◌≡◌, refl, false, List, [], ◌∷◌, ok, arith, ◌==◌, String, Option,
}
use discord_voice_service.Runtime.Session.Store.{
  VoiceSessionRuntime, begin_playback, invalidate_playback, begin_rollover, invalidate_rollover,
  defer_playback_reset, consume_playback_reset, advance_transport_generation, rollover_is_current,
  ConnectedVoiceSession,
}
use discord_voice_service.Runtime.Session.Sections.{
  join_connecting, join_finished, play_resolving, emit_playback_state, track_ended, pausing,
  resuming, stopped, left,
}
use discord_voice_service.Runtime.Session.Rollover.{
  reconnecting, reconnected, recover_rollover_without_playback, interrupt_playback,
  refresh_paused_voice_context, rollover_resume_is_still_intended,
}
use discord_voice_service.Voice.Error.{VoiceError}
use discord_voice_service.Runtime.Session.Surroundings.{Surroundings, Command}
use discord_voice_service.Runtime.Session.Renewal.{
  rollover_failed, rollover_connected, resume_after_rollover,
}
use discord_voice_service.Runtime.Session.Interleaving.{Section, run_section, interleave}
use discord_voice_service.Runtime.Session.Interleaving

abbrev starts : Section → ℕ
starts Interleaving.rollover_begun = 1
starts Interleaving.rollover_invalidated = 1
starts _ = 0

-- How often a rollover is begun or invalidated.
abbrev pub rollovers_passed : List Section → ℕ
rollovers_passed [] = 0
rollovers_passed (section ∷ sections) = starts section + rollovers_passed sections

run_section-rollover_epoch :
    (section : Section) (rt : VoiceSessionRuntime)
    → rt.rollover_epoch < 2 ^ 64
    → (run_section section rt).0.rollover_epoch ≡ (rt.rollover_epoch + starts section) % (2 ^ 64)
unfolding join_connecting join_finished play_resolving emit_playback_state track_ended pausing
    resuming stopped left reconnecting reconnected recover_rollover_without_playback
    interrupt_playback refresh_paused_voice_context begin_playback invalidate_playback
    begin_rollover invalidate_rollover defer_playback_reset consume_playback_reset
    advance_transport_generation
run_section-rollover_epoch (Interleaving.connecting voice) rt h = ground arith
run_section-rollover_epoch (Interleaving.joined session) rt h = ground arith
run_section-rollover_epoch (Interleaving.resolving video_id epoch hint) rt h = ground arith
run_section-rollover_epoch (Interleaving.playback kind video_id epoch itag depth position) rt h =
    ground arith
run_section-rollover_epoch (Interleaving.ended epoch position) rt h = ground arith
run_section-rollover_epoch Interleaving.pause rt h = ground arith
run_section-rollover_epoch Interleaving.resume rt h = ground arith
run_section-rollover_epoch Interleaving.stop rt h = omega arith
run_section-rollover_epoch Interleaving.leave rt h = omega arith
run_section-rollover_epoch Interleaving.rollover_start rt h = omega arith
run_section-rollover_epoch (Interleaving.rollover_end session) rt h = omega arith
run_section-rollover_epoch (Interleaving.rollover_failed reason) rt h = omega arith
run_section-rollover_epoch (Interleaving.interrupted reason) rt h = omega arith
run_section-rollover_epoch (Interleaving.refreshed voice) rt h = ground arith
run_section-rollover_epoch Interleaving.playback_begun rt h = omega arith
run_section-rollover_epoch Interleaving.playback_invalidated rt h = omega arith
run_section-rollover_epoch Interleaving.rollover_begun rt h = omega arith
run_section-rollover_epoch Interleaving.rollover_invalidated rt h = omega arith
run_section-rollover_epoch Interleaving.reset_deferred rt h = omega arith
run_section-rollover_epoch Interleaving.reset_consumed rt h = omega arith
run_section-rollover_epoch Interleaving.generation_advanced rt h = omega arith

interleave-rollover_epoch :
    (sections : List Section) (rt : VoiceSessionRuntime)
    → rt.rollover_epoch < 2 ^ 64
    → (interleave sections rt).rollover_epoch
      ≡ (rt.rollover_epoch + rollovers_passed sections) % (2 ^ 64)
interleave-rollover_epoch [] rt h = omega arith
interleave-rollover_epoch (section ∷ sections) rt h =
    let first = run_section-rollover_epoch section rt h in
    let rest =
      interleave-rollover_epoch sections (run_section section rt).0 (omega (arith, first)) in
    omega (arith, first, rest)

-- However the sections of other commands are interleaved, once a rollover has been begun or
-- invalidated in between (less than 2 ^ 64 times, after which the epoch comes round again), the rest of
-- a rollover that holds the earlier epoch succeeds without changing, emitting or sending anything,
-- whether its connection has failed or stands, and so does the task that it spawned to resume the
-- track.
pub superseded_rollover-silent :
    (env : Surroundings) (perform : ℕ → Command (Unit {0})) (sections : List Section)
    (rt : VoiceSessionRuntime) (track : Option String) (video_id : String) (guard_epoch : ℕ)
    (e : VoiceError) (replacement : ConnectedVoiceSession)
    → rt.rollover_epoch < 2 ^ 64
    → 0 < rollovers_passed sections
    → rollovers_passed sections < 2 ^ 64
    → let now = interleave sections rt in
      (rollover_failed env track guard_epoch rt.rollover_epoch e now ≡ (now, [], ok tt))
      × (rollover_connected env track guard_epoch rt.rollover_epoch replacement now
          ≡ (now, [], ok tt))
      × (resume_after_rollover env perform video_id guard_epoch rt.rollover_epoch now
          ≡ (now, [], ok tt))
unfolding rollover_failed rollover_connected resume_after_rollover rollover_resume_is_still_intended
    rollover_is_current
superseded_rollover-silent env perform sections rt track video_id guard_epoch e replacement h
      some_passed few_passed =
    let later = interleave-rollover_epoch sections rt h in
    let stale : ((interleave sections rt).rollover_epoch == rt.rollover_epoch) ≡ false =
      ground (arith, later) in
    (rw stale refl, rw stale refl, rw stale refl)
