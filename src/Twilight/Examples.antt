-- ===== src/Twilight/Examples.antt =====
-- A history of gateway events for the tracker of crates/discord-voice-service-twilight/src/lib.rs.
use discord_voice_service.Common.{String, none, some, List, [], ◌∷◌, ◌≡◌}
use discord_voice_service.Twilight.Tracker.{
  VoiceContext, Event, voice_state_update, voice_server_update, another, new, observe,
}
use discord_voice_service.Twilight.History.{observed, new-IsSettled}
use discord_voice_service.Twilight.Reporting.{IsNews}
use discord_voice_service.Twilight.Observing.{observe-Reports}

abbrev joins : Event
joins =
    voice_state_update
      (record { user_id = 3; guild_id = some 1; channel_id = some 2; session_id = "session" })

abbrev serves : Event
serves = voice_server_update (record { guild_id = 1; endpoint = some "voice"; token = "token" })

abbrev rotates : Event
rotates = voice_server_update (record { guild_id = 1; endpoint = none; token = "fresh" })

abbrev earlier_events : List Event
earlier_events = serves ∷ another ∷ joins ∷ []

abbrev context_with : String → VoiceContext
context_with token = record {
  guild_id = 1;
  channel_id = 2;
  user_id = 3;
  session_id = "session";
  endpoint = "voice";
  token = token;
}

observe-Reports_example :
    ((observed (new 1 2 3) earlier_events).current ≡ some (context_with "token"))
    × IsNews
        (some (context_with "token"))
        (some (context_with "fresh"))
        (observe (observed (new 1 2 3) earlier_events) rotates).0
unfolding new
observe-Reports_example = observe-Reports (new 1 2 3) earlier_events rotates (new-IsSettled 1 2 3)
