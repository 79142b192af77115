-- ===== src/Twilight/Advancing.antt =====
-- What one event does to the parts that the tracker of crates/discord-voice-service-twilight/src/lib.rs
-- knows.
use discord_voice_service.Common.{
  Bool, true, false, String, Option, none, some, ◌==◌, ◌&&◌, if◌then◌else◌, ◌≡◌, refl, ap, ◌∙◌, inl,
  inr, Bool-cases,
}
use discord_voice_service.Common.Maybe.{◌>>=◌, or_else}
use discord_voice_service.Twilight.Tracker.{
  VoiceServerUpdate, Event, voice_state_update, voice_server_update, another, VoiceContextTracker,
  reset, is_some_of, is_none, is_empty, observe_voice_state, note_endpoint, note_token,
  observe_voice_server, take_event,
}
use discord_voice_service.Twilight.History.{
  own, leaves, session_told, endpoint_told, token_told, filled, when_some,
}

abbrev pub advanced :
    VoiceContextTracker → Bool → Option String → Option String → Option String → VoiceContextTracker
advanced t true session_id endpoint token = reset t
advanced t false session_id endpoint token = record t {
  session_id = or_else session_id t.session_id;
  endpoint = or_else endpoint t.endpoint;
  token = or_else token t.token;
}

state_arms :
    (t : VoiceContextTracker) (mine gone here : Bool) (session_id : String)
    → (if mine && gone
        then reset t
        else if mine && here
        then (record t { session_id = some session_id })
        else t)
      ≡ advanced t (mine && gone) (when_some (mine && here) (some session_id)) none none
state_arms t true true here session_id = refl
state_arms t true false true session_id = refl
state_arms t true false false session_id = refl
state_arms t false gone here session_id = refl

note_endpoint_lem :
    (t : VoiceContextTracker) (endpoint : Option String)
    → note_endpoint endpoint t ≡ record t { endpoint = or_else (endpoint >>= filled) t.endpoint }
unfolding note_endpoint
note_endpoint_lem t none = refl
note_endpoint_lem t (some endpoint) = elim (Bool-cases (is_empty endpoint)) [
  | inl e ↦ rw e
  | inr e ↦ rw e
]

note_token_lem :
    (t : VoiceContextTracker) (token : String)
    → note_token token t ≡ record t { token = or_else (filled token) t.token }
unfolding note_token
note_token_lem t token = elim (Bool-cases (is_empty token)) [ inl e ↦ rw e | inr e ↦ rw e ]

noted :
    (t : VoiceContextTracker) (update : VoiceServerUpdate)
    → note_token update.token (note_endpoint update.endpoint t)
      ≡ advanced t false none (update.endpoint >>= filled) (filled update.token)
noted t update =
    note_token_lem (note_endpoint update.endpoint t) update.token
    ∙ ap (λ (v : VoiceContextTracker). record v { token = or_else (filled update.token) v.token })
        (note_endpoint_lem t update.endpoint)

pub take_event_lem :
    (t : VoiceContextTracker) (event : Event)
    → take_event t event
      ≡ advanced t
          (leaves t.guild_id t.user_id event)
          (session_told t.guild_id t.channel_id t.user_id event)
          (endpoint_told t.guild_id event)
          (token_told t.guild_id event)
unfolding take_event observe_voice_state observe_voice_server
take_event_lem t (voice_state_update update) =
    state_arms t (own t.guild_id t.user_id update) (is_none update.channel_id)
      (is_some_of t.channel_id update.channel_id) update.session_id
take_event_lem t (voice_server_update update) = elim (Bool-cases (update.guild_id == t.guild_id)) [
  | inl e ↦ rw e (noted t update)
  | inr e ↦ rw e
]
take_event_lem t another = refl
