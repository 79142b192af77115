-- ===== src/Playback/Selector.antt =====
-- crates/discord-voice-service-playback/src/selector.rs: the choice of a stream format.
pub mod Best
use discord_voice_service.Common.{
  ℕ, Bool, String, ◌&&◌, ◌||◌, Option, none, some, List, [], ◌∷◌, ltb, ◌==◌, if◌then◌else◌, str_eq,
  Result, ok, err, false,
}
use discord_voice_service.Playback.Error.{PlaybackError, unsupported_format}

-- What the selection reads of a `SongStreamFormat` of ytmusic-service, and its number in the list.
pub record SongStreamFormat : Type 0 where
  pub itag : ℕ
  pub mime_type : String
  pub bitrate : ℕ
  pub audio_sample_rate : Option ℕ
  pub audio_channels : Option ℕ

abbrev pub is_value : ℕ → Option ℕ → Bool
is_value n none = false
is_value n (some m) = m == n

unfoldable pub is_allowed : SongStreamFormat → Bool
is_allowed f =
    str_eq f.mime_type "audio/webm; codecs=\"opus\""
    && (is_value 48_000 f.audio_sample_rate
        && (is_value 2 f.audio_channels
            && (f.itag == 250 || f.itag == 249 || ltb f.bitrate 50_000)))

unfoldable pub priority_for_itag : ℕ → ℕ
priority_for_itag itag = if itag == 250 then 0 else if itag == 249 then 1 else 2

-- The order of the keys `(priority_for_itag(itag), Reverse(bitrate))`: strictly before.
unfoldable pub key_before : SongStreamFormat → SongStreamFormat → Bool
unfolding priority_for_itag
key_before f g =
    ltb (priority_for_itag f.itag) (priority_for_itag g.itag)
    || (priority_for_itag f.itag == priority_for_itag g.itag && ltb g.bitrate f.bitrate)

-- `sort_by_key` is stable: an element is put before the first one that it is not behind.
unfoldable pub insert : SongStreamFormat → List SongStreamFormat → List SongStreamFormat
insert f [] = f ∷ []
insert f (g ∷ rest) = if key_before g f then g ∷ insert f rest else f ∷ g ∷ rest

unfoldable pub sort_by_key : List SongStreamFormat → List SongStreamFormat
sort_by_key [] = []
sort_by_key (f ∷ rest) = insert f (sort_by_key rest)

unfoldable pub allowed : List SongStreamFormat → List SongStreamFormat
allowed [] = []
allowed (f ∷ rest) = if is_allowed f then f ∷ allowed rest else allowed rest

abbrev pub first_or_unsupported : List SongStreamFormat → Result PlaybackError SongStreamFormat
first_or_unsupported [] = err unsupported_format
first_or_unsupported (f ∷ rest) = ok f

unfoldable pub select_song_stream_format :
    List SongStreamFormat → Result PlaybackError SongStreamFormat
select_song_stream_format formats = first_or_unsupported (sort_by_key (allowed formats))
