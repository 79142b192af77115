-- ===== src/Playback/Recovery.antt =====
-- crates/discord-voice-service-playback/src/recovery.rs: reading an open track, with a second try after
-- a read that takes too long and a new URL for a stale one. `timeout` gives up a read that stalls.
pub mod Retrying
use discord_voice_service.Common.{
  ℕ, ◌+◌, Bool, true, false, ◌&&◌, ◌||◌, Option, none, some, List, [], ◌∷◌, ◌++◌, String, ◌==◌,
  if◌then◌else◌, Result, ok, err, panic, ◌⊎◌, inl, inr,
}
use discord_voice_service.Common.Words.{saturating_add}
use discord_voice_service.Common.Bytes.{Bytes}
use discord_voice_service.Common.Text.{contains, text_append}
use discord_voice_service.Playback.Error.{PlaybackError, media_parse_detail, http}
use discord_voice_service.Playback.HttpStream.{HttpOpusStream, Http, Reading, read_chunk}
use discord_voice_service.Playback.Source.{
  ResolvedPlaybackSource, PlaybackSource, reset_stream_to_current_byte_offset,
  replace_resolved_stream_at_current_byte_offset,
}

pub record PlaybackRecoveryMetrics : Type 0 where
  pub http_retry_count : ℕ
  pub url_reresolve_count : ℕ

pub record PlaybackRecovery : Type 0 where
  pub last_video_id : Option String
  pub last_resolved : Option ResolvedPlaybackSource
  pub metrics : PlaybackRecoveryMetrics

unfoldable pub new_recovery : PlaybackRecovery
new_recovery = record {
  last_video_id = none;
  last_resolved = none;
  metrics = record { http_retry_count = 0; url_reresolve_count = 0 };
}

unfoldable pub reset : PlaybackRecovery → PlaybackRecovery
reset r = record r { last_video_id = none; last_resolved = none }

unfoldable pub count_retries : ℕ → PlaybackRecovery → PlaybackRecovery
count_retries n r = record r {
  metrics = record r.metrics { http_retry_count = saturating_add r.metrics.http_retry_count n };
}

unfoldable pub count_reresolve : PlaybackRecovery → PlaybackRecovery
count_reresolve r = record r {
  metrics = record r.metrics {
    url_reresolve_count = saturating_add r.metrics.url_reresolve_count 1;
  };
}

unfoldable pub remember_source :
    String → ResolvedPlaybackSource → PlaybackRecovery → PlaybackRecovery
remember_source video_id resolved r = record r {
  last_video_id = some video_id;
  last_resolved = some resolved;
}

unfoldable pub is_stale_source_status : ℕ → Bool
is_stale_source_status status = status == 401 || status == 403 || status == 404 || status == 410

unfoldable pub is_steady_state_read_timeout : PlaybackError → Bool
is_steady_state_read_timeout (media_parse_detail message) =
    contains "timed out reading playback source" message
is_steady_state_read_timeout _ = false

abbrev pub is_stale : PlaybackError → Bool
is_stale (http (some status)) = is_stale_source_status status
is_stale _ = false

unfoldable pub should_reresolve_after_steady_read_failure : PlaybackError → Bool
should_reresolve_after_steady_read_failure e = is_stale e || is_steady_state_read_timeout e

abbrev pub is_open_timeout : PlaybackError → Bool
is_open_timeout (media_parse_detail message) = contains "timed out opening playback source" message
is_open_timeout _ = false

unfoldable pub should_reresolve_after_open_failure : PlaybackError → Bool
should_reresolve_after_open_failure e = is_stale e || is_open_timeout e

-- The service that finds the URL of a video.
pub record Resolver (N : Type 0) : Type 0 where
  pub resolve_playback_source : N → String → (PlaybackError ⊎ ResolvedPlaybackSource) × N

abbrev pub timed_out_reading : String → PlaybackError
timed_out_reading url =
    media_parse_detail (text_append "timed out reading playback source for " url)

abbrev pub or_timeout :
    {N : Type 0} → String → Reading N → Result PlaybackError (Option Bytes) × HttpOpusStream × N
or_timeout url (none, stream, n) = (err (timed_out_reading url), stream, n)
or_timeout url (some result, stream, n) = (result, stream, n)

-- A track that is being read: the recovery, the source and the network.
abbrev pub Track : Type 0 → Type 0
Track N = PlaybackRecovery × PlaybackSource × N

-- What a step on a track gives, and the track after it.
abbrev pub OnTrack : Type 0 → Type 0 → Type 0
OnTrack A N = Result PlaybackError A × PlaybackRecovery × PlaybackSource × N

module _ {N : Type 0} (client : Http N) where
  unfoldable pub read_chunk_with_timeout :
      HttpOpusStream → String → N → Result PlaybackError (Option Bytes) × HttpOpusStream × N
  read_chunk_with_timeout stream url n = or_timeout url (read_chunk client stream n)

  abbrev pub read_into :
      PlaybackRecovery
      → PlaybackSource
      → Result PlaybackError (Option Bytes) × HttpOpusStream × N
      → OnTrack (Option Bytes) N
  read_into r s (result, stream, n) = (result, r, record s { stream = stream }, n)

  unfoldable pub read_source_chunk_with_timeout : Track N → OnTrack (Option Bytes) N
  read_source_chunk_with_timeout (r, s, n) =
      read_into r s (read_chunk_with_timeout s.stream s.resolved.playable_url n)

  module _ (resolver : Resolver N) where
    abbrev pub replaced :
        String
        → PlaybackRecovery
        → PlaybackSource
        → (PlaybackError ⊎ ResolvedPlaybackSource) × N
        → OnTrack (Unit {0}) N
    replaced video_id r s (inl e, n) = (err e, r, s, n)
    replaced video_id r s (inr resolved, n) = (
      ok tt,
      remember_source video_id resolved r,
      replace_resolved_stream_at_current_byte_offset resolved s,
      n,
    )

    unfoldable pub reresolve_steady_source :
        Option String → PlaybackError → Track N → OnTrack (Unit {0}) N
    reresolve_steady_source none original_err (r, s, n) = (err original_err, r, s, n)
    reresolve_steady_source (some video_id) original_err (r, s, n) =
        replaced video_id (count_reresolve r) s (resolver.resolve_playback_source n video_id)

    abbrev pub read_again : OnTrack (Unit {0}) N → OnTrack (Option Bytes) N
    read_again (ok u, r, s, n) = read_source_chunk_with_timeout (r, s, n)
    read_again (err e, r, s, n) = (err e, r, s, n)
    read_again (panic, r, s, n) = (panic, r, s, n)

    -- The second read has failed, or the first in another way than by its time.
    abbrev pub after_second : Option String → OnTrack (Option Bytes) N → OnTrack (Option Bytes) N
    after_second video_id (ok chunk, r, s, n) = (ok chunk, r, s, n)
    after_second video_id (panic, r, s, n) = (panic, r, s, n)
    after_second video_id (err e, r, s, n) =
        if should_reresolve_after_steady_read_failure e
        then read_again (reresolve_steady_source video_id e (r, s, n))
        else (err e, r, s, n)

    abbrev pub after_first : Option String → OnTrack (Option Bytes) N → OnTrack (Option Bytes) N
    after_first video_id (ok chunk, r, s, n) = (ok chunk, r, s, n)
    after_first video_id (panic, r, s, n) = (panic, r, s, n)
    after_first video_id (err e, r, s, n) =
        if is_steady_state_read_timeout e
        then after_second video_id (
            read_source_chunk_with_timeout
              (count_retries 1 r, reset_stream_to_current_byte_offset s, n))
        else after_second video_id (err e, r, s, n)

    unfoldable pub read_stream_chunk : Option String → Track N → OnTrack (Option Bytes) N
    read_stream_chunk video_id track = after_first video_id (read_source_chunk_with_timeout track)
