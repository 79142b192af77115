-- ===== src/Twilight/History.antt =====
-- The history of the gateway's events, by which the tracker of
-- crates/discord-voice-service-twilight/src/lib.rs is specified: the latest event is the head of the list.
use discord_voice_service.Common.{
  Bool, true, false, String, Option, none, some, List, [], ◌∷◌, ◌==◌, ◌&&◌, if◌then◌else◌, ◌≡◌,
  refl, ℕ,
}
use discord_voice_service.Common.Maybe.{◌>>=◌, or_else}
use discord_voice_service.Twilight.Tracker.{
  VoiceContext, VoiceStateUpdate, Event, voice_state_update, voice_server_update, another,
  VoiceContextTracker, new, from_context, is_some_of, is_none, is_empty, context_of, observe,
}

abbrev pub own : ℕ → ℕ → VoiceStateUpdate → Bool
own guild user update = (update.user_id == user) && is_some_of guild update.guild_id

-- The event says that the bot has left voice in the guild.
abbrev pub leaves : ℕ → ℕ → Event → Bool
leaves guild user (voice_state_update update) = own guild user update && is_none update.channel_id
leaves guild user (voice_server_update update) = false
leaves guild user another = false

abbrev pub when_some : Bool → Option String → Option String
when_some true text = text
when_some false text = none

-- The session, endpoint and token that an event tells.
abbrev pub session_told : ℕ → ℕ → ℕ → Event → Option String
session_told guild channel user (voice_state_update update) =
    when_some (own guild user update && is_some_of channel update.channel_id)
      (some update.session_id)
session_told guild channel user (voice_server_update update) = none
session_told guild channel user another = none

abbrev pub filled : String → Option String
filled text = if is_empty text then none else some text

abbrev pub endpoint_told : ℕ → Event → Option String
endpoint_told guild (voice_server_update update) =
    when_some (update.guild_id == guild) (update.endpoint >>= filled)
endpoint_told guild (voice_state_update update) = none
endpoint_told guild another = none

abbrev pub token_told : ℕ → Event → Option String
token_told guild (voice_server_update update) =
    when_some (update.guild_id == guild) (filled update.token)
token_told guild (voice_state_update update) = none
token_told guild another = none

-- The latest value that is told after the bot left last, or the one of the start if it has not left.
abbrev pub latest :
    (Event → Bool) → (Event → Option String) → Option String → List Event → Option String
latest left told start [] = start
latest left told start (event ∷ earlier) =
    if left event then none else or_else (told event) (latest left told start earlier)

module _ (t0 : VoiceContextTracker) where
  abbrev pub session_at : List Event → Option String
  session_at =
      latest (leaves t0.guild_id t0.user_id) (session_told t0.guild_id t0.channel_id t0.user_id)
        t0.session_id

  abbrev pub endpoint_at : List Event → Option String
  endpoint_at = latest (leaves t0.guild_id t0.user_id) (endpoint_told t0.guild_id) t0.endpoint

  abbrev pub token_at : List Event → Option String
  token_at = latest (leaves t0.guild_id t0.user_id) (token_told t0.guild_id) t0.token

abbrev pub joined :
    VoiceContextTracker → Option String → Option String → Option String → Option VoiceContext
joined t0 session_id endpoint token = do
  session_id ← session_id
  endpoint ← endpoint
  token ← token
  some (record {
    guild_id = t0.guild_id;
    channel_id = t0.channel_id;
    user_id = t0.user_id;
    session_id = session_id;
    endpoint = endpoint;
    token = token;
  })

-- The context that a history tells, once each part is told.
abbrev pub complete : VoiceContextTracker → List Event → Option VoiceContext
complete t0 history =
    joined t0 (session_at t0 history) (endpoint_at t0 history) (token_at t0 history)

-- The tracker after a history.
abbrev pub observed : VoiceContextTracker → List Event → VoiceContextTracker
observed t0 [] = t0
observed t0 (event ∷ earlier) = (observe (observed t0 earlier) event).1

abbrev pub IsSettled : VoiceContextTracker → Type 0
IsSettled t = t.current ≡ context_of t

pub new-IsSettled : (guild channel user : ℕ) → IsSettled (new guild channel user)
unfolding new context_of
new-IsSettled guild channel user = refl

pub from_context-IsSettled : (context : VoiceContext) → IsSettled (from_context context)
unfolding from_context context_of
from_context-IsSettled context = refl
