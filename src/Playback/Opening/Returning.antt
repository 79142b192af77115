-- ===== src/Playback/Opening/Returning.antt =====
-- recovery.rs: recovering a track comes to an end.
use discord_voice_service.Common.{
  ℕ, ◌≤◌, ◌<◌, refl, sym, subst, inl, inr, ◌⊎◌, Option, none, some, String, ltb, length, Result, ok,
  err, panic, arith, Bool-cases,
}
use discord_voice_service.Common.Words.{u64_max}
use discord_voice_service.Common.Bytes.{Bytes}
use discord_voice_service.Playback.Error.{PlaybackError}
use discord_voice_service.Playback.Demux.{WebmParser}
use discord_voice_service.Playback.HttpStream.{
  HttpOpusStream, Http, Reading, offset, new_stream, read_chunk,
}
use discord_voice_service.Playback.HttpStream.Pieces.{Serves, Ahead, Delivered}
use discord_voice_service.Playback.HttpStream.Delivery.{read_chunk-Delivered}
use discord_voice_service.Playback.HttpStream.Ending.{Returns, read_chunk-Returns}
use discord_voice_service.Playback.Source.{ResolvedPlaybackSource}
use discord_voice_service.Playback.Recovery.{
  PlaybackRecovery, Resolver, count_retries, count_reresolve, should_reresolve_after_open_failure,
}
use discord_voice_service.Playback.Opening.{
  Buffered, OpeningChunk, OnStream, Opened, fill_loop, finish, finished, empty_buffer, begun,
  started, open_from_position, first_attempt, second_attempt, opening_chunk, read_opening_chunk,
  remembering, open_second, or_reresolve, open_first, resolve_and_open, try_reopen_existing,
  or_resolve, is_last, recover,
}
use discord_voice_service.Playback.Opening.Reaching.{
  IsFound, IsInside, absorb-KeepsStream, Delivered-IsInside, absorbed-IsFound, fill_loop-IsFound,
}

-- A track or an error: not the end of the fuel, and no panic, such as a read that never ends.
abbrev pub IsRecovered : {N : Type 0} → Option (Opened N) → Type 0
IsRecovered none = ⊥
IsRecovered (some (panic, r, n)) = ⊥
IsRecovered (some (ok opened, r, n)) = Unit
IsRecovered (some (err e, r, n)) = Unit

module _ {N : Type 0} (resource : Bytes) (small : length resource ≤ u64_max) (client : Http N)
    (serves : Serves resource client) (parser : WebmParser) (resume : ℕ) where
  -- An opening chunk, after one attempt or two.
  abbrev ChunkInside : HttpOpusStream → Option Bytes → Type 0
  ChunkInside stream none = Unit
  ChunkInside stream (some chunk) = IsInside resource stream

  abbrev OpensInside : OnStream OpeningChunk N → Type 0
  OpensInside (ok opening, stream, n) = ChunkInside stream opening.chunk
  OpensInside (err e, stream, n) = Unit
  OpensInside (panic, stream, n) = ⊥

  opening_chunk-OpensInside :
      (retries first : ℕ) (result : Result PlaybackError (Option Bytes)) (stream : HttpOpusStream)
      (n : N)
      → Delivered resource first (some result, stream, n)
      → Returns (some result, stream, n)
      → OpensInside (opening_chunk retries result, stream, n)
  opening_chunk-OpensInside retries first (ok none) stream n h back = tt
  opening_chunk-OpensInside retries first (ok (some chunk)) stream n h back =
      (Delivered-IsInside resource small client serves parser resume first chunk stream n h).0
  opening_chunk-OpensInside retries first (err e) stream n h back = tt
  opening_chunk-OpensInside retries first panic stream n h back = back

  second_attempt-OpensInside :
      (first : ℕ) (url : String) (reading : Reading N)
      → Delivered resource first reading
      → Returns reading
      → OpensInside (second_attempt client parser url reading)
  second_attempt-OpensInside first url (none, stream, n) h back = tt
  second_attempt-OpensInside first url (some result, stream, n) h back =
      opening_chunk-OpensInside 1 first result stream n h back

  first_attempt-OpensInside :
      (first : ℕ) (url : String) (reading : Reading N)
      → Delivered resource first reading
      → Returns reading
      → OpensInside (first_attempt client parser url reading)
  first_attempt-OpensInside first url (none, stream, n) (same, ahead) back =
      second_attempt-OpensInside (offset stream) url (read_chunk client stream n)
        (read_chunk-Delivered resource small client serves stream n ahead)
        (read_chunk-Returns client stream n)
  first_attempt-OpensInside first url (some result, stream, n) h back =
      opening_chunk-OpensInside 0 first result stream n h back

  new_stream-Ahead : (url : String) → Ahead resource (new_stream url)
  unfolding new_stream
  new_stream-Ahead url = (resource, refl)

  module _ (fuel : ℕ) (enough : length resource < fuel) where
    started-IsFound :
        (resolved : ResolvedPlaybackSource) (r : PlaybackRecovery)
        (opening : OnStream OpeningChunk N)
        → OpensInside opening
        → IsRecovered (started client parser fuel resolved resume r opening)
    started-IsFound resolved r (err e, stream, n) h = tt
    started-IsFound resolved r (panic, stream, n) h = h
    started-IsFound resolved r (ok opening, stream, n) h =
        begun-IsFound (count_retries opening.retry_count r) opening.chunk h
      where
        finished-IsFound :
            (r : PlaybackRecovery) (loop : Option (Result PlaybackError Buffered × N))
            → IsFound loop
            → IsRecovered (finished client parser resolved resume r loop)
        finished-IsFound r none h = h
        finished-IsFound r (some (ok b, n)) h =
            elim (Bool-cases (ltb b.playback_position.timestamp_samples resume)) [
              | inl early ↦ unfold finish in rw early tt
              | inr reached ↦ unfold finish in rw reached tt
            ]
        finished-IsFound r (some (err e, n)) h = tt
        finished-IsFound r (some (panic, n)) h = h

        begun-IsFound :
            (r : PlaybackRecovery) (chunk : Option Bytes)
            → ChunkInside stream chunk
            → IsRecovered (begun client parser fuel resolved resume r stream n chunk)
        begun-IsFound r none h = tt
        begun-IsFound r (some chunk) h = finished-IsFound r _ (
            absorbed-IsFound resource small client serves parser resume
              (fill_loop client parser fuel resolved.playable_url resume) n stream
              (λ b n same.
                fill_loop-IsFound resource small client serves parser resume fuel
                  resolved.playable_url b n (subst (IsInside resource) (sym same) h)
                  (omega (arith, enough)))
              _ (absorb-KeepsStream parser resume chunk (empty_buffer client parser stream)))

    open_from_position-IsFound :
        (resolved : ResolvedPlaybackSource) (r : PlaybackRecovery) (n : N)
        → IsRecovered (open_from_position client parser fuel resolved resume r n)
    unfolding open_from_position read_opening_chunk
    open_from_position-IsFound resolved r n = started-IsFound resolved r _ (
        first_attempt-OpensInside (offset (new_stream resolved.playable_url)) resolved.playable_url
          (read_chunk client (new_stream resolved.playable_url) n)
          (read_chunk-Delivered resource small client serves (new_stream resolved.playable_url) n
            (new_stream-Ahead resolved.playable_url))
          (read_chunk-Returns client (new_stream resolved.playable_url) n))

    remembering-IsFound :
        (video_id : String) (opened : Option (Opened N))
        → IsRecovered opened
        → IsRecovered (remembering client parser fuel video_id opened)
    remembering-IsFound video_id none h = h
    remembering-IsFound video_id (some (ok opened, r, n)) h = tt
    remembering-IsFound video_id (some (err e, r, n)) h = tt
    remembering-IsFound video_id (some (panic, r, n)) h = h

    module _ (resolver : Resolver N) (video_id : String) where
      or_reresolve-IsFound :
          (opened : Option (Opened N))
          → IsRecovered opened
          → IsRecovered (or_reresolve client parser fuel resolver video_id resume opened)
      or_reresolve-IsFound none h = h
      or_reresolve-IsFound (some (ok opened, r, n)) h = tt
      or_reresolve-IsFound (some (panic, r, n)) h = h
      or_reresolve-IsFound (some (err e, r, n)) h =
          elim (Bool-cases (should_reresolve_after_open_failure e)) [
            | inl stale ↦ rw stale (second (resolver.resolve_playback_source n video_id))
            | inr other ↦ rw other tt
          ]
        where
          second :
              (found : (PlaybackError ⊎ ResolvedPlaybackSource) × N)
              → IsRecovered (
                  open_second client parser fuel resolver video_id resume (count_reresolve r) found)
          second (inl e, n) = tt
          second (inr resolved, n) =
              remembering-IsFound video_id _
                (open_from_position-IsFound resolved (count_reresolve r) n)

      resolve_and_open-IsFound :
          (r : PlaybackRecovery) (n : N)
          → IsRecovered (resolve_and_open client parser fuel resolver video_id resume r n)
      unfolding resolve_and_open
      resolve_and_open-IsFound r n = first (resolver.resolve_playback_source n video_id)
        where
          first :
              (found : (PlaybackError ⊎ ResolvedPlaybackSource) × N)
              → IsRecovered (open_first client parser fuel resolver video_id resume r found)
          first (inl e, n) = tt
          first (inr resolved, n) = or_reresolve-IsFound _ (open_from_position-IsFound resolved r n)

      or_resolve-IsFound :
          (opened : Option (Opened N))
          → IsRecovered opened
          → IsRecovered (or_resolve client parser fuel resolver video_id resume opened)
      or_resolve-IsFound none h = h
      or_resolve-IsFound (some (ok opened, r, n)) h = tt
      or_resolve-IsFound (some (panic, r, n)) h = h
      or_resolve-IsFound (some (err e, r, n)) h = resolve_and_open-IsFound r n

      -- Against a server that keeps to HTTP, recovering a track comes to an end, with a track or an
      -- error, after at most as many reads as the resource has bytes and one, for each URL that is tried;
      -- each of the reads ends, and nothing panics.
      pub recover-IsFound :
          (r : PlaybackRecovery) (n : N)
          → IsRecovered (recover client parser fuel resolver video_id resume r n)
      unfolding recover
      recover-IsFound r n =
          elim (Bool-cases (is_last client parser fuel resolver r.last_video_id video_id)) [
            | inl same ↦ rw same (or_resolve-IsFound _ (reopened r.last_resolved))
            | inr other ↦ rw other (resolve_and_open-IsFound r n)
          ]
        where
          reopened :
              (last : Option ResolvedPlaybackSource)
              → IsRecovered (try_reopen_existing client parser fuel resolver last resume r n)
          reopened none = tt
          reopened (some resolved) = open_from_position-IsFound resolved r n
