-- ===== src/Playback/Worker/Total.antt =====
-- worker.rs: where the codec does not panic and every read ends, a round that fills the queue comes to an
-- end, without a panic.
use discord_voice_service.Common.{
  ℕ, not, ◌||◌, inl, inr, ◌⊎◌, Option, none, some, List, [], ◌∷◌, ◌++◌, String, Result, ok, err,
  panic, Ensures, NoPanic, and_then-NoPanic, Bool-cases,
}
use discord_voice_service.Common.Bytes.{Bytes}
use discord_voice_service.Playback.Error.{PlaybackError}
use discord_voice_service.Playback.OpusFrame.{OpusFrame}
use discord_voice_service.Playback.OpusQueue.{OpusFrameQueue, can_fit_frame, push}
use discord_voice_service.Playback.Position.{DemuxedPacket}
use discord_voice_service.Playback.Demux.{WebmParser, WebmOpusDemux, push_bytes, drain_packets}
use discord_voice_service.Playback.Demux.Draining.{IsProgress, drain_packets-Ensures}
use discord_voice_service.Playback.Normalizer.{Codec}
use discord_voice_service.Playback.Normalizer.Total.{IsTotal, push_packet-NoPanic, flush-NoPanic}
use discord_voice_service.Playback.HttpStream.{Http, Reading, read_chunk}
use discord_voice_service.Playback.HttpStream.Ending.{Returns, read_chunk-Returns}
use discord_voice_service.Playback.Source.{ResolvedPlaybackSource}
use discord_voice_service.Playback.Recovery.{
  Resolver, Track, OnTrack, or_timeout, read_chunk_with_timeout, read_source_chunk_with_timeout,
  replaced, reresolve_steady_source, read_again, after_second, after_first, read_stream_chunk,
  count_reresolve, is_steady_state_read_timeout, should_reresolve_after_steady_read_failure,
}
use discord_voice_service.Playback.Worker.{
  Filling, drained_one, drain_pending_frames, enqueued_one, enqueue_frames, drain_step,
  enqueue_step, buffer_packet, read_step, is_enough, has_frames, take_packets, with_demux,
  demux_chunk, flush_step, on_chunk, on_source, fill_round,
}

push-NoPanic : (q : OpusFrameQueue) (f : OpusFrame) → NoPanic (push q f).0
unfolding push
push-NoPanic q f = elim (Bool-cases (can_fit_frame q f)) [
  | inl room ↦ rw room tt
  | inr full ↦ rw full tt
]

drain_pending_frames-NoPanic :
    (frames : List OpusFrame) (q : OpusFrameQueue) → NoPanic (drain_pending_frames frames q).0
unfolding drain_pending_frames
drain_pending_frames-NoPanic [] q = tt
drain_pending_frames-NoPanic (f ∷ fs) q = elim (Bool-cases (can_fit_frame q f)) [
  | inl room ↦ rw room (pushed (drain_pending_frames-NoPanic fs) (push q f) (push-NoPanic q f))
  | inr full ↦ rw full tt
]
  where
    pushed :
        ((q : OpusFrameQueue) → NoPanic (drain_pending_frames fs q).0)
        → (step : Result OpusFrame (Unit {0}) × OpusFrameQueue) → NoPanic step.0
        → NoPanic (drained_one fs (drain_pending_frames fs) step).0
    pushed ih (ok u, q) h = ih q
    pushed ih (err e, q) h = tt
    pushed ih (panic, q) h = h

enqueue_frames-NoPanic :
    (frames pending : List OpusFrame) (q : OpusFrameQueue)
    → NoPanic (enqueue_frames frames pending q).0
unfolding enqueue_frames
enqueue_frames-NoPanic [] pending q = tt
enqueue_frames-NoPanic (f ∷ fs) pending q = elim (Bool-cases (can_fit_frame q f)) [
  | inl room ↦ rw room (pushed (enqueue_frames-NoPanic fs pending) (push q f) (push-NoPanic q f))
  | inr full ↦ rw full (enqueue_frames-NoPanic fs (pending ++ (f ∷ [])) q)
]
  where
    pushed :
        ((q : OpusFrameQueue) → NoPanic (enqueue_frames fs pending q).0)
        → (step : Result OpusFrame (Unit {0}) × OpusFrameQueue) → NoPanic step.0
        → NoPanic (enqueued_one pending (enqueue_frames fs pending) step).0
    pushed ih (ok u, q) h = ih q
    pushed ih (err e, q) h = tt
    pushed ih (panic, q) h = h

module _ {N : Type 0} (client : Http N) (resolver : Resolver N) (video_id : Option String) where
  read_source-NoPanic : (track : Track N) → NoPanic (read_source_chunk_with_timeout client track).0
  unfolding read_source_chunk_with_timeout read_chunk_with_timeout
  read_source-NoPanic (r, s, n) =
      timed (read_chunk client s.stream n) (read_chunk-Returns client s.stream n)
    where
      timed :
          (reading : Reading N)
          → Returns reading
          → NoPanic (or_timeout s.resolved.playable_url reading).0
      timed (none, stream, n) h = tt
      timed (some (ok chunk), stream, n) h = tt
      timed (some (err e), stream, n) h = tt
      timed (some panic, stream, n) h = h

  reresolve-NoPanic :
      (e : PlaybackError) (track : Track N)
      → NoPanic (reresolve_steady_source client resolver video_id e track).0
  unfolding reresolve_steady_source
  reresolve-NoPanic e (r, s, n) = by_video video_id
    where
      found :
          (id : String) (answer : (PlaybackError ⊎ ResolvedPlaybackSource) × N)
          → NoPanic (replaced client resolver id (count_reresolve r) s answer).0
      found id (inl e, n) = tt
      found id (inr resolved, n) = tt

      by_video :
          (id : Option String) → NoPanic (reresolve_steady_source client resolver id e (r, s, n)).0
      by_video none = tt
      by_video (some id) = found id (resolver.resolve_playback_source n id)

  after_second-NoPanic :
      (read : OnTrack (Option Bytes) N)
      → NoPanic read.0
      → NoPanic (after_second client resolver video_id read).0
  after_second-NoPanic (ok chunk, r, s, n) h = tt
  after_second-NoPanic (panic, r, s, n) h = h
  after_second-NoPanic (err e, r, s, n) h =
      elim (Bool-cases (should_reresolve_after_steady_read_failure e)) [
        | inl stale ↦ rw stale (again _ (reresolve-NoPanic e (r, s, n)))
        | inr other ↦ rw other tt
      ]
    where
      again :
          (renewed : OnTrack (Unit {0}) N)
          → NoPanic renewed.0
          → NoPanic (read_again client resolver renewed).0
      again (ok u, r, s, n) h = read_source-NoPanic (r, s, n)
      again (err e, r, s, n) h = tt
      again (panic, r, s, n) h = h

  pub read_stream_chunk-NoPanic :
      (track : Track N) → NoPanic (read_stream_chunk client resolver video_id track).0
  unfolding read_stream_chunk
  read_stream_chunk-NoPanic track =
      first (read_source_chunk_with_timeout client track) (read_source-NoPanic track)
    where
      first :
          (read : OnTrack (Option Bytes) N)
          → NoPanic read.0
          → NoPanic (after_first client resolver video_id read).0
      first (ok chunk, r, s, n) h = tt
      first (panic, r, s, n) h = h
      first (err e, r, s, n) h = elim (Bool-cases (is_steady_state_read_timeout e)) [
        | inl late ↦ rw late (after_second-NoPanic _ (read_source-NoPanic _))
        | inr other ↦ rw other (after_second-NoPanic (err e, r, s, n) tt)
      ]

module _ {Pcm Decoder Encoder N : Type 0} (codec : Codec Pcm Decoder Encoder)
    (total : IsTotal codec) (client : Http N) (resolver : Resolver N) (parser : WebmParser) where
  abbrev Filled : Type 0
  Filled = Filling Pcm Decoder Encoder N

  enqueue_step-NoPanic :
      (frames : List OpusFrame) (s : Filled)
      → NoPanic (enqueue_step codec client resolver parser frames s).0
  unfolding enqueue_step
  enqueue_step-NoPanic frames s = enqueue_frames-NoPanic frames s.worker.pending_frames s.queue

  buffer_packet-NoPanic :
      (packet : DemuxedPacket) (s : Filled)
      → NoPanic (buffer_packet codec client resolver parser packet s).0
  unfolding buffer_packet
  buffer_packet-NoPanic packet s =
      and_then-NoPanic _ _ (push_packet-NoPanic codec total packet s.worker.normalizer)
        (λ frames s'. enqueue_step-NoPanic frames _)

  take_packets-NoPanic :
      (target : ℕ) (packets : List DemuxedPacket) (s : Filled)
      → NoPanic (take_packets codec client resolver parser target packets s).0
  unfolding take_packets
  take_packets-NoPanic target [] s = tt
  take_packets-NoPanic target (packet ∷ packets) s =
      elim (Bool-cases (
        is_enough codec client resolver parser target s
        || has_frames codec client resolver parser s.worker.pending_frames)) [
          | inl enough ↦ rw enough tt
          | inr more ↦ rw more (
              and_then-NoPanic _ _ (buffer_packet-NoPanic packet s)
                (λ u s'. take_packets-NoPanic target packets s'))
        ]

  demux_chunk-NoPanic :
      (chunk : Bytes) (s : Filled) → NoPanic (demux_chunk codec client resolver parser chunk s).0
  unfolding demux_chunk
  demux_chunk-NoPanic chunk s =
      drained (drain_packets parser (push_bytes s.source.demux chunk))
        (drain_packets-Ensures parser (push_bytes s.source.demux chunk))
    where
      drained :
          (d : Result PlaybackError (List DemuxedPacket × WebmOpusDemux))
          → Ensures (IsProgress parser (push_bytes s.source.demux chunk)) d
          → NoPanic
              (with_demux codec client resolver parser
                (record s { source = record s.source { demux = push_bytes s.source.demux chunk } })
                d).0
      drained (ok (packets, demux)) h = tt
      drained (err e) h = tt
      drained panic h = h

  flush_step-NoPanic : (s : Filled) → NoPanic (flush_step codec client resolver parser s).0
  unfolding flush_step
  flush_step-NoPanic s =
      and_then-NoPanic _ _ (flush-NoPanic codec total s.worker.normalizer)
        (λ frames s'. enqueue_step-NoPanic frames s')

  on_chunk-NoPanic :
      (target : ℕ) (chunk : Option Bytes) (s : Filled)
      → NoPanic (on_chunk codec client resolver parser target chunk s).0
  on_chunk-NoPanic target none s = and_then-NoPanic _ _ (flush_step-NoPanic s) (λ u s'. tt)
  on_chunk-NoPanic target (some chunk) s =
      and_then-NoPanic _ _ (demux_chunk-NoPanic chunk s)
        (λ packets s'. and_then-NoPanic _ _ (take_packets-NoPanic target packets s') (λ u s''. tt))

  on_source-NoPanic :
      (video_id : Option String) (target : ℕ) (packets : List DemuxedPacket) (s : Filled)
      → NoPanic (on_source codec client resolver parser video_id target packets s).0
  unfolding read_step
  on_source-NoPanic video_id target (packet ∷ packets) s =
      and_then-NoPanic _ _ (buffer_packet-NoPanic packet _) (λ u s'. tt)
  on_source-NoPanic video_id target [] s =
      and_then-NoPanic _ _ (read_stream_chunk-NoPanic client resolver video_id _)
        (on_chunk-NoPanic target)

  pub fill_round-NoPanic :
      (video_id : Option String) (target : ℕ) (s : Filled)
      → NoPanic (fill_round codec client resolver parser video_id target s).0
  unfolding fill_round drain_step
  fill_round-NoPanic video_id target s =
      and_then-NoPanic _ _ (drain_pending_frames-NoPanic s.worker.pending_frames s.queue) (λ all s'.
        elim (Bool-cases (not all || is_enough codec client resolver parser target s')) [
          | inl enough ↦ rw enough tt
          | inr more ↦ rw more (on_source-NoPanic video_id target s'.source.pending_packets s')
        ])
