-- ===== src/Playback/Opening.antt =====
-- crates/discord-voice-service-playback/src/recovery.rs: opening a track at a position, from the source
-- that is known or from a new one.
pub mod Resuming
pub mod Recovering
pub mod Reaching
pub mod Returning
use discord_voice_service.Common.{
  ℕ, zero, suc, ◌+◌, Bool, true, false, not, ◌&&◌, ◌||◌, Option, none, some, List, [], ◌∷◌, ◌++◌,
  String, ltb, ◌==◌, str_eq, if◌then◌else◌, Result, ok, err, panic, ◌⊎◌, inl, inr,
}
use discord_voice_service.Common.Words.{saturating_add}
use discord_voice_service.Common.Bytes.{Bytes}
use discord_voice_service.Common.Text.{text_append}
use discord_voice_service.Playback.Error.{
  PlaybackError, media_parse, media_parse_detail, invalid_state,
}
use discord_voice_service.Playback.OpusFrame.{samples_from_duration_ms_u64}
use discord_voice_service.Playback.Position.{
  DemuxedPacket, PlaybackPosition, default_position, record_buffered, set_sent_duration_samples,
}
use discord_voice_service.Playback.Demux.{
  WebmParser, WebmOpusDemux, default_demux, push_bytes, drain_packets,
}
use discord_voice_service.Playback.HttpStream.{
  HttpOpusStream, Http, Reading, new_stream, read_chunk,
}
use discord_voice_service.Playback.Source.{ResolvedPlaybackSource, PlaybackSource}
use discord_voice_service.Playback.Recovery.{
  PlaybackRecovery, Resolver, read_chunk_with_timeout, count_retries, count_reresolve,
  remember_source, should_reresolve_after_open_failure,
}

-- `PlaybackResumePosition` is the number of its samples.
unfoldable pub from_millis : ℕ → ℕ
from_millis duration_ms = samples_from_duration_ms_u64 duration_ms

unfoldable pub packet_end_samples : DemuxedPacket → ℕ
packet_end_samples packet = saturating_add packet.timestamp_samples packet.duration_samples

unfoldable pub packet_overlaps_resume : DemuxedPacket → ℕ → Bool
unfolding packet_end_samples
packet_overlaps_resume packet resume = ltb resume (packet_end_samples packet)

-- The local variables of `open_from_position`.
pub record Buffered : Type 0 where
  pub stream : HttpOpusStream
  pub demux : WebmOpusDemux
  pub pending_packets : List DemuxedPacket
  pub playback_position : PlaybackPosition

unfoldable pub keep_packet : ℕ → DemuxedPacket → Buffered → Buffered
keep_packet resume packet b = record b {
  playback_position = record_buffered packet b.playback_position;
  pending_packets =
      if packet_overlaps_resume packet resume
      then b.pending_packets ++ (packet ∷ [])
      else b.pending_packets;
}

unfoldable pub keep_packets : ℕ → List DemuxedPacket → Buffered → Buffered
keep_packets resume [] b = b
keep_packets resume (packet ∷ packets) b = keep_packets resume packets (keep_packet resume packet b)

abbrev pub kept :
    ℕ
    → Buffered
    → Result PlaybackError (List DemuxedPacket × WebmOpusDemux)
    → Result PlaybackError Buffered
kept resume b (ok (packets, demux)) = ok (keep_packets resume packets (record b { demux = demux }))
kept resume b (err e) = err e
kept resume b panic = panic

unfoldable pub absorb : WebmParser → ℕ → Bytes → Buffered → Result PlaybackError Buffered
absorb parser resume chunk b = kept resume b (drain_packets parser (push_bytes b.demux chunk))

abbrev pub is_empty_packets : List DemuxedPacket → Bool
is_empty_packets [] = true
is_empty_packets (packet ∷ packets) = false

-- The test of the `while`.
abbrev pub wants_more : ℕ → Buffered → Bool
wants_more resume b =
    is_empty_packets b.pending_packets || ltb b.playback_position.timestamp_samples resume

-- The messages of the two errors; the numbers in the second are left out.
abbrev pub timed_out_opening : String → PlaybackError
timed_out_opening url =
    media_parse_detail (text_append "timed out opening playback source for " url)

abbrev pub ended_before : PlaybackError
ended_before = media_parse_detail "playback source ended before requested resume position"

pub record OpeningChunk : Type 0 where
  pub chunk : Option Bytes
  pub retry_count : ℕ

abbrev pub opening_chunk :
    ℕ → Result PlaybackError (Option Bytes) → Result PlaybackError OpeningChunk
opening_chunk retries (ok chunk) = ok (record { chunk = chunk; retry_count = retries })
opening_chunk retries (err e) = err e
opening_chunk retries panic = panic

-- With the stream and the network after it.
abbrev pub OnStream : Type 0 → Type 0 → Type 0
OnStream A N = Result PlaybackError A × HttpOpusStream × N

-- A source that was opened, with the position that the worker takes over.
abbrev pub Opened : Type 0 → Type 0
Opened N = Result PlaybackError (PlaybackSource × PlaybackPosition) × PlaybackRecovery × N

module _ {N : Type 0} (client : Http N) (parser : WebmParser) where
  abbrev pub second_attempt : String → Reading N → OnStream OpeningChunk N
  second_attempt url (none, stream, n) = (err (timed_out_opening url), stream, n)
  second_attempt url (some result, stream, n) = (opening_chunk 1 result, stream, n)

  abbrev pub first_attempt : String → Reading N → OnStream OpeningChunk N
  first_attempt url (none, stream, n) = second_attempt url (read_chunk client stream n)
  first_attempt url (some result, stream, n) = (opening_chunk 0 result, stream, n)

  -- The two rounds of the loop.
  unfoldable pub read_opening_chunk : HttpOpusStream → String → N → OnStream OpeningChunk N
  read_opening_chunk stream url n = first_attempt url (read_chunk client stream n)

  abbrev pub absorbed :
      (Buffered → N → Option (Result PlaybackError Buffered × N))
      → N
      → Result PlaybackError Buffered
      → Option (Result PlaybackError Buffered × N)
  absorbed next n (ok b) = next b n
  absorbed next n (err e) = some (err e, n)
  absorbed next n panic = some (panic, n)

  abbrev pub on_chunk :
      (Buffered → N → Option (Result PlaybackError Buffered × N))
      → ℕ
      → Buffered
      → OnStream (Option Bytes) N
      → Option (Result PlaybackError Buffered × N)
  on_chunk next resume b (ok (some chunk), stream, n) =
      absorbed next n (absorb parser resume chunk (record b { stream = stream }))
  on_chunk next resume b (ok none, stream, n) = some (ok (record b { stream = stream }), n)
  on_chunk next resume b (err e, stream, n) = some (err e, n)
  on_chunk next resume b (panic, stream, n) = some (panic, n)

  -- The `while`, on fuel for its rounds; `none` where that runs out.
  unfoldable pub fill_loop :
      ℕ → String → ℕ → Buffered → N → Option (Result PlaybackError Buffered × N)
  fill_loop zero url resume b n = none
  fill_loop (suc fuel) url resume b n =
      let next = fill_loop fuel url resume in
      if wants_more resume b
      then on_chunk next resume b (read_chunk_with_timeout client b.stream url n)
      else some (ok b, n)

  unfoldable pub finish :
      ResolvedPlaybackSource
      → ℕ
      → Buffered
      → Result PlaybackError (PlaybackSource × PlaybackPosition)
  finish resolved resume b =
      if ltb b.playback_position.timestamp_samples resume
      then err ended_before
      else ok (
        record {
          resolved = resolved;
          stream = b.stream;
          demux = b.demux;
          pending_packets = b.pending_packets;
        },
        (if resume == 0
            then b.playback_position
            else set_sent_duration_samples resume b.playback_position),
      )

  abbrev pub finished :
      ResolvedPlaybackSource
      → ℕ
      → PlaybackRecovery
      → Option (Result PlaybackError Buffered × N)
      → Option (Opened N)
  finished resolved resume r none = none
  finished resolved resume r (some (ok b, n)) = some (finish resolved resume b, r, n)
  finished resolved resume r (some (err e, n)) = some (err e, r, n)
  finished resolved resume r (some (panic, n)) = some (panic, r, n)

  abbrev pub empty_buffer : HttpOpusStream → Buffered
  empty_buffer stream = record {
    stream = stream;
    demux = default_demux;
    pending_packets = [];
    playback_position = default_position;
  }

  module _ (fuel : ℕ) where
    -- What follows the opening chunk.
    abbrev pub begun :
        ResolvedPlaybackSource
        → ℕ
        → PlaybackRecovery
        → HttpOpusStream
        → N
        → Option Bytes
        → Option (Opened N)
    begun resolved resume r stream n none =
        some (err (media_parse "unexpected end of stream"), r, n)
    begun resolved resume r stream n (some chunk) = finished resolved resume r (
        absorbed (fill_loop fuel resolved.playable_url resume) n
          (absorb parser resume chunk (empty_buffer stream)))

    abbrev pub started :
        ResolvedPlaybackSource → ℕ → PlaybackRecovery → OnStream OpeningChunk N → Option (Opened N)
    started resolved resume r (err e, stream, n) = some (err e, r, n)
    started resolved resume r (panic, stream, n) = some (panic, r, n)
    started resolved resume r (ok opening, stream, n) =
        begun resolved resume (count_retries opening.retry_count r) stream n opening.chunk

    unfoldable pub open_from_position :
        ResolvedPlaybackSource → ℕ → PlaybackRecovery → N → Option (Opened N)
    open_from_position resolved resume r n =
        started resolved resume r
          (read_opening_chunk (new_stream resolved.playable_url) resolved.playable_url n)

    abbrev pub remembering : String → Option (Opened N) → Option (Opened N)
    remembering video_id (some (ok (source, position), r, n)) =
        some (ok (source, position), remember_source video_id source.resolved r, n)
    remembering video_id opened = opened

    module _ (resolver : Resolver N) where
      abbrev pub open_second :
          String
          → ℕ
          → PlaybackRecovery
          → (PlaybackError ⊎ ResolvedPlaybackSource) × N
          → Option (Opened N)
      open_second video_id resume r (inl e, n) = some (err e, r, n)
      open_second video_id resume r (inr resolved, n) =
          remembering video_id (open_from_position resolved resume r n)

      -- The match on the first attempt to open.
      abbrev pub or_reresolve : String → ℕ → Option (Opened N) → Option (Opened N)
      or_reresolve video_id resume (some (err e, r, n)) =
          if should_reresolve_after_open_failure e
          then open_second video_id resume (count_reresolve r)
              (resolver.resolve_playback_source n video_id)
          else some (err e, r, n)
      or_reresolve video_id resume (some (panic, r, n)) = some (panic, r, n)
      or_reresolve video_id resume (some (ok opened, r, n)) =
          remembering video_id (some (ok opened, r, n))
      or_reresolve video_id resume none = none

      abbrev pub open_first :
          String
          → ℕ
          → PlaybackRecovery
          → (PlaybackError ⊎ ResolvedPlaybackSource) × N
          → Option (Opened N)
      open_first video_id resume r (inl e, n) = some (err e, r, n)
      open_first video_id resume r (inr resolved, n) =
          or_reresolve video_id resume (open_from_position resolved resume r n)

      unfoldable pub resolve_and_open : String → ℕ → PlaybackRecovery → N → Option (Opened N)
      resolve_and_open video_id resume r n =
          open_first video_id resume r (resolver.resolve_playback_source n video_id)

      abbrev pub try_reopen_existing :
          Option ResolvedPlaybackSource → ℕ → PlaybackRecovery → N → Option (Opened N)
      try_reopen_existing none resume r n =
          some (err (invalid_state "no playback source available to reopen"), r, n)
      try_reopen_existing (some resolved) resume r n = open_from_position resolved resume r n

      abbrev pub or_resolve : String → ℕ → Option (Opened N) → Option (Opened N)
      or_resolve video_id resume (some (err e, r, n)) = resolve_and_open video_id resume r n
      or_resolve video_id resume (some (panic, r, n)) = some (panic, r, n)
      or_resolve video_id resume (some (ok opened, r, n)) = some (ok opened, r, n)
      or_resolve video_id resume none = none

      abbrev pub is_last : Option String → String → Bool
      is_last none video_id = false
      is_last (some last) video_id = str_eq last video_id

      unfoldable pub recover : String → ℕ → PlaybackRecovery → N → Option (Opened N)
      recover video_id resume r n =
          if is_last r.last_video_id video_id
          then or_resolve video_id resume (try_reopen_existing r.last_resolved resume r n)
          else resolve_and_open video_id resume r n
