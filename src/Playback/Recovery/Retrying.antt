-- ===== src/Playback/Recovery/Retrying.antt =====
-- recovery.rs: over a second try and a new URL, a track is read on where it was.
use discord_voice_service.Common.{
  ℕ, ◌≤◌, refl, inl, inr, ◌⊎◌, Option, none, some, String, length, drop, ok, err, panic, subst,
  Bool-cases,
}
use discord_voice_service.Common.Words.{u64_max}
use discord_voice_service.Common.Bytes.{Bytes}
use discord_voice_service.Playback.Error.{PlaybackError}
use discord_voice_service.Playback.Position.{set_byte_offset}
use discord_voice_service.Playback.HttpStream.{
  Http, Reading, offset, read_chunk, new_stream, set_resume_offset,
}
use discord_voice_service.Playback.HttpStream.Pieces.{Serves, Ahead, Delivered}
use discord_voice_service.Playback.HttpStream.Delivery.{read_chunk-Delivered}
use discord_voice_service.Playback.Source.{
  ResolvedPlaybackSource, PlaybackSource, reset_stream_to_current_byte_offset,
  replace_resolved_stream_at_current_byte_offset,
}
use discord_voice_service.Playback.Recovery.{
  PlaybackRecovery, Resolver, OnTrack, or_timeout, read_chunk_with_timeout,
  read_source_chunk_with_timeout, replaced, reresolve_steady_source, read_again, after_second,
  after_first, read_stream_chunk, count_retries, count_reresolve, remember_source,
  should_reresolve_after_steady_read_failure, is_steady_state_read_timeout,
}

-- What was read of a track comes next in the resource, or nothing was read.
abbrev pub Arrives : {N : Type 0} → Bytes → ℕ → OnTrack (Option Bytes) N → Type 0
Arrives resource first (result, r, s, n) = Delivered resource first (some result, s.stream, n)

module _ {N : Type 0} (resource : Bytes) (small : length resource ≤ u64_max) (client : Http N)
    (serves : Serves resource client) where
  pub or_timeout-Delivered :
      (first : ℕ) (url : String) (reading : Reading N)
      → Delivered resource first reading
      → let (result, stream, n) = or_timeout url reading in
        Delivered resource first (some result, stream, n)
  or_timeout-Delivered first url (none, s, n) h = h
  or_timeout-Delivered first url (some result, s, n) h = h

  read_source-Arrives :
      (r : PlaybackRecovery) (s : PlaybackSource) (n : N)
      → Ahead resource s.stream
      → Arrives resource (offset s.stream) (read_source_chunk_with_timeout client (r, s, n))
  unfolding read_source_chunk_with_timeout read_chunk_with_timeout
  read_source-Arrives r s n ahead =
      or_timeout-Delivered (offset s.stream) s.resolved.playable_url (read_chunk client s.stream n)
        (read_chunk-Delivered resource small client serves s.stream n ahead)

  -- A stream that is set to its own offset carries nothing yet.
  reset-Ahead : (s : PlaybackSource) → Ahead resource (reset_stream_to_current_byte_offset s).stream
  unfolding reset_stream_to_current_byte_offset set_resume_offset set_byte_offset
  reset-Ahead s = (drop (offset s.stream) resource, refl)

  replace-Ahead :
      (resolved : ResolvedPlaybackSource) (s : PlaybackSource)
      → Ahead resource (replace_resolved_stream_at_current_byte_offset resolved s).stream
  unfolding replace_resolved_stream_at_current_byte_offset new_stream set_resume_offset
      set_byte_offset
  replace-Ahead resolved s = (drop (offset s.stream) resource, refl)

  module _ (resolver : Resolver N) (video_id : Option String) where
    read_again-Arrives :
        (e : PlaybackError) (r : PlaybackRecovery) (s : PlaybackSource) (n : N)
        → Ahead resource s.stream
        → Arrives resource (offset s.stream) (
            read_again client resolver
              (reresolve_steady_source client resolver video_id e (r, s, n)))
    read_again-Arrives e r s n ahead = reresolved-Arrives video_id
      where
        replaced-Arrives :
            (id : String) (found : (PlaybackError ⊎ ResolvedPlaybackSource) × N)
            → Arrives resource (offset s.stream) (
                read_again client resolver
                  (replaced client resolver id (count_reresolve r) s found))
        replaced-Arrives id (inl e, n) = (refl, ahead)
        replaced-Arrives id (inr resolved, n) =
            unfold replace_resolved_stream_at_current_byte_offset new_stream set_resume_offset
              set_byte_offset in
            read_source-Arrives (remember_source id resolved (count_reresolve r))
              (replace_resolved_stream_at_current_byte_offset resolved s) n
              (replace-Ahead resolved s)

        reresolved-Arrives :
            (id : Option String)
            → Arrives resource (offset s.stream) (
                read_again client resolver (reresolve_steady_source client resolver id e (r, s, n)))
        reresolved-Arrives none = unfold reresolve_steady_source in (refl, ahead)
        reresolved-Arrives (some id) =
            unfold reresolve_steady_source in
            replaced-Arrives id (resolver.resolve_playback_source n id)

    after_second-Arrives :
        (first : ℕ) (track : OnTrack (Option Bytes) N)
        → Arrives resource first track
        → Arrives resource first (after_second client resolver video_id track)
    after_second-Arrives first (ok none, r, s, n) h = h
    after_second-Arrives first (ok (some chunk), r, s, n) h = h
    after_second-Arrives first (panic, r, s, n) h = h
    after_second-Arrives first (err e, r, s, n) (same, ahead) =
        elim (Bool-cases (should_reresolve_after_steady_read_failure e)) [
          | inl stale ↦ rw stale (
              subst
                (λ at. Arrives resource at (
                  read_again client resolver
                    (reresolve_steady_source client resolver video_id e (r, s, n))))
                same (read_again-Arrives e r s n ahead))
          | inr other ↦ rw other (same, ahead)
        ]

    after_first-Arrives :
        (first : ℕ) (track : OnTrack (Option Bytes) N)
        → Arrives resource first track
        → Arrives resource first (after_first client resolver video_id track)
    unfolding reset_stream_to_current_byte_offset set_resume_offset set_byte_offset
    after_first-Arrives first (ok none, r, s, n) h = h
    after_first-Arrives first (ok (some chunk), r, s, n) h = h
    after_first-Arrives first (panic, r, s, n) h = h
    after_first-Arrives first (err e, r, s, n) (same, ahead) =
        elim (Bool-cases (is_steady_state_read_timeout e)) [
          | inl slow ↦ rw slow (
              after_second-Arrives first _ (
                subst
                  (λ at. Arrives resource at (
                    read_source_chunk_with_timeout client
                      (count_retries 1 r, reset_stream_to_current_byte_offset s, n)))
                  same
                  (read_source-Arrives (count_retries 1 r) (reset_stream_to_current_byte_offset s) n
                    (reset-Ahead s))))
          | inr other ↦ rw other (after_second-Arrives first (err e, r, s, n) (same, ahead))
        ]

    -- Where every URL of the track serves the same resource: a chunk that is read is what the resource
    -- has at the offset of the stream, also where a read was given up and done again, or the URL was
    -- stale and a new one was asked for; where no chunk is read the offset is as before.
    pub read_stream_chunk-Arrives :
        (r : PlaybackRecovery) (s : PlaybackSource) (n : N)
        → Ahead resource s.stream
        → Arrives resource (offset s.stream) (read_stream_chunk client resolver video_id (r, s, n))
    unfolding read_stream_chunk
    read_stream_chunk-Arrives r s n ahead =
        after_first-Arrives (offset s.stream) _ (read_source-Arrives r s n ahead)
