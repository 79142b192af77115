-- ===== src/Twilight/Tracker.antt =====
-- `VoiceContextTracker` of crates/discord-voice-service-twilight/src/lib.rs. An `Id` is the number in
-- it. Of the events of the Twilight gateway, the fields that the tracker reads are kept.
use discord_voice_service.Common.{
  ℕ, Bool, true, false, String, Option, none, some, ◌==◌, ◌&&◌, if◌then◌else◌, str_eq,
}
use discord_voice_service.Common.Maybe.{◌>>=◌}

pub record VoiceContext : Type 0 where
  pub guild_id : ℕ
  pub channel_id : ℕ
  pub user_id : ℕ
  pub session_id : String
  pub endpoint : String
  pub token : String

pub record VoiceStateUpdate : Type 0 where
  pub user_id : ℕ
  pub guild_id : Option ℕ
  pub channel_id : Option ℕ
  pub session_id : String

pub record VoiceServerUpdate : Type 0 where
  pub guild_id : ℕ
  pub endpoint : Option String
  pub token : String

pub data Event : Type 0 where
  voice_state_update : VoiceStateUpdate → Event
  voice_server_update : VoiceServerUpdate → Event
  -- Any other event of the gateway.
  another : Event

pub record VoiceContextTracker : Type 0 where
  pub guild_id : ℕ
  pub channel_id : ℕ
  pub user_id : ℕ
  pub session_id : Option String
  pub endpoint : Option String
  pub token : Option String
  pub current : Option VoiceContext

unfoldable pub new : ℕ → ℕ → ℕ → VoiceContextTracker
new guild_id channel_id user_id = record {
  guild_id = guild_id;
  channel_id = channel_id;
  user_id = user_id;
  session_id = none;
  endpoint = none;
  token = none;
  current = none;
}

unfoldable pub from_context : VoiceContext → VoiceContextTracker
from_context context = record {
  guild_id = context.guild_id;
  channel_id = context.channel_id;
  user_id = context.user_id;
  session_id = some context.session_id;
  endpoint = some context.endpoint;
  token = some context.token;
  current = some context;
}

unfoldable pub reset : VoiceContextTracker → VoiceContextTracker
reset t = record t { session_id = none; endpoint = none; token = none; current = none }

abbrev pub is_some_of : ℕ → Option ℕ → Bool
is_some_of id none = false
is_some_of id (some other) = other == id

abbrev pub is_none : Option ℕ → Bool
is_none none = true
is_none (some id) = false

abbrev pub is_empty : String → Bool
is_empty text = str_eq text ""

-- The two arms for the bot's own voice state in the guild.
unfoldable pub observe_voice_state : VoiceContextTracker → VoiceStateUpdate → VoiceContextTracker
observe_voice_state t update =
    let own = (update.user_id == t.user_id) && is_some_of t.guild_id update.guild_id in
    if own && is_none update.channel_id
    then reset t
    else if own && is_some_of t.channel_id update.channel_id
    then (record t { session_id = some update.session_id })
    else t

unfoldable pub note_endpoint : Option String → VoiceContextTracker → VoiceContextTracker
note_endpoint none t = t
note_endpoint (some endpoint) t =
    if is_empty endpoint then t else (record t { endpoint = some endpoint })

unfoldable pub note_token : String → VoiceContextTracker → VoiceContextTracker
note_token token t = if is_empty token then t else (record t { token = some token })

unfoldable pub observe_voice_server : VoiceContextTracker → VoiceServerUpdate → VoiceContextTracker
observe_voice_server t update =
    if update.guild_id == t.guild_id
    then note_token update.token (note_endpoint update.endpoint t)
    else t

unfoldable pub take_event : VoiceContextTracker → Event → VoiceContextTracker
take_event t (voice_state_update update) = observe_voice_state t update
take_event t (voice_server_update update) = observe_voice_server t update
take_event t another = t

-- The context of what is known, with the `?` on each part that is not.
unfoldable pub context_of : VoiceContextTracker → Option VoiceContext
context_of t = do
  session_id ← t.session_id
  endpoint ← t.endpoint
  token ← t.token
  some (record {
    guild_id = t.guild_id;
    channel_id = t.channel_id;
    user_id = t.user_id;
    session_id = session_id;
    endpoint = endpoint;
    token = token;
  })

-- The derived `PartialEq`.
unfoldable pub context_eq : VoiceContext → VoiceContext → Bool
context_eq a b =
    (a.guild_id == b.guild_id)
    && (a.channel_id == b.channel_id)
    && (a.user_id == b.user_id)
    && str_eq a.session_id b.session_id
    && str_eq a.endpoint b.endpoint
    && str_eq a.token b.token

unfoldable pub is_current : Option VoiceContext → VoiceContext → Bool
is_current none context = false
is_current (some current) context = context_eq current context

unfoldable pub report :
    VoiceContextTracker → Option VoiceContext → Option VoiceContext × VoiceContextTracker
report t none = (none, t)
report t (some context) =
    if is_current t.current context
    then (none, t)
    else (some context, record t { current = some context })

unfoldable pub observe : VoiceContextTracker → Event → Option VoiceContext × VoiceContextTracker
observe t event = let t' = take_event t event in report t' (context_of t')
