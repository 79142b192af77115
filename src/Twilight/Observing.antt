-- ===== src/Twilight/Observing.antt =====
-- What the tracker of crates/discord-voice-service-twilight/src/lib.rs gives out, against the history of
-- the events.
use discord_voice_service.Common.{
  Option, List, [], ◌∷◌, ◌≡◌, refl, ap, ◌∙◌, inl, inr, subst, Bool-cases,
}
use discord_voice_service.Twilight.Tracker.{
  VoiceContext, Event, VoiceContextTracker, reset, context_of, report, observe,
}
use discord_voice_service.Twilight.History.{
  leaves, session_told, endpoint_told, token_told, session_at, endpoint_at, token_at, complete,
  observed, IsSettled,
}
use discord_voice_service.Twilight.Advancing.{advanced, take_event_lem}
use discord_voice_service.Twilight.Reporting.{IsNews, advanced_step}

at_history : VoiceContextTracker → List Event → VoiceContextTracker
at_history t0 history = record t0 {
  session_id = session_at t0 history;
  endpoint = endpoint_at t0 history;
  token = token_at t0 history;
  current = complete t0 history;
}

moved : VoiceContextTracker → List Event → Event → VoiceContextTracker
moved t0 history event =
    advanced (at_history t0 history) (leaves t0.guild_id t0.user_id event)
      (session_told t0.guild_id t0.channel_id t0.user_id event) (endpoint_told t0.guild_id event)
      (token_told t0.guild_id event)

moved_lem :
    (t0 : VoiceContextTracker) (history : List Event) (event : Event)
    → record (moved t0 history event) { current = context_of (moved t0 history event) }
      ≡ at_history t0 (event ∷ history)
unfolding moved at_history reset context_of
moved_lem t0 history event = elim (Bool-cases (leaves t0.guild_id t0.user_id event)) [
  | inl left ↦ rw left
  | inr stays ↦ rw stays
]

after_step :
    (t0 : VoiceContextTracker) (history : List Event) (event : Event)
    → IsNews
        (complete t0 history)
        (complete t0 (event ∷ history))
        (observe (at_history t0 history) event).0
      × ((observe (at_history t0 history) event).1 ≡ at_history t0 (event ∷ history))
unfolding at_history context_of observe moved
after_step t0 history event =
    let step =
      advanced_step (at_history t0 history) (leaves t0.guild_id t0.user_id event)
        (session_told t0.guild_id t0.channel_id t0.user_id event) (endpoint_told t0.guild_id event)
        (token_told t0.guild_id event) refl in
    let at_event = moved_lem t0 history event in
    rw (take_event_lem (at_history t0 history) event) (
      subst
          (λ after.
            IsNews (complete t0 history) after
              (report (moved t0 history event) (context_of (moved t0 history event))).0)
          (ap (λ (t : VoiceContextTracker). t.current) at_event) step.0,
      step.1 ∙ at_event,
    )

observed_lem :
    (t0 : VoiceContextTracker) (history : List Event)
    → IsSettled t0
    → observed t0 history ≡ at_history t0 history
unfolding at_history context_of
observed_lem t0 [] settled = ap (λ (x : Option VoiceContext). record t0 { current = x }) settled
observed_lem t0 (event ∷ earlier) settled =
    ap (λ (t : VoiceContextTracker). (observe t event).1) (observed_lem t0 earlier settled)
    ∙ (after_step t0 earlier event).1

-- A tracker, new or of a context, that has observed a history holds the context that the history
-- tells since the bot left last, if it tells each part, and one event more makes it give out the
-- context that is told then if this is another one, and nothing if it is the same.
pub observe-Reports :
    (t0 : VoiceContextTracker) (history : List Event) (event : Event)
    → IsSettled t0
    → ((observed t0 history).current ≡ complete t0 history)
      × IsNews
          (complete t0 history)
          (complete t0 (event ∷ history))
          (observe (observed t0 history) event).0
unfolding at_history
observe-Reports t0 history event settled =
    rw (observed_lem t0 history settled) (refl, (after_step t0 history event).0)
