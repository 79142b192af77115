-- ===== src/Playback/Worker.antt =====
-- crates/discord-voice-service-playback/src/worker.rs: from an open track to the queue of frames. The
-- queue and the source that the methods borrow, and the network, are parts of the state.
pub mod Ordering
pub mod Limits
pub mod Examples
pub mod Resuming
pub mod Progress
pub mod Total
pub mod Returning
use discord_voice_service.Common.{
  ℕ, zero, suc, ◌+◌, max, Bool, true, false, not, ◌&&◌, ◌||◌, Option, none, some, List, [], ◌∷◌,
  ◌++◌, String, ltb, leb, ◌==◌, if◌then◌else◌, str_eq, Result, ok, err, panic, and_then,
}
use discord_voice_service.Common.Bytes.{Bytes}
use discord_voice_service.Playback.Error.{PlaybackError, media_parse, buffer_full}
use discord_voice_service.Playback.OpusFrame.{OpusFrame, samples_from_duration_ms_u64}
use discord_voice_service.Playback.OpusQueue.{
  OpusFrameQueue, can_fit_frame, push, is_full, is_empty,
}
use discord_voice_service.Playback.Position.{
  DemuxedPacket, PlaybackPosition, default_position, record_buffered,
}
use discord_voice_service.Playback.Demux.{WebmParser, WebmOpusDemux, push_bytes, drain_packets}
use discord_voice_service.Playback.Normalizer.{
  Codec, DiscordOpusFrameNormalizer, new_normalizer, push_packet, flush,
}
use discord_voice_service.Playback.HttpStream.{Http}
use discord_voice_service.Playback.Source.{PlaybackSource}
use discord_voice_service.Playback.Recovery.{
  PlaybackRecovery, Resolver, OnTrack, new_recovery, read_stream_chunk,
}
use discord_voice_service.Playback.Recovery
use discord_voice_service.Playback.Opening.{Opened, is_last, recover}

abbrev pub default_prebuffer_target_ms : ℕ
default_prebuffer_target_ms = 80

-- `position` is the shared one, of the source that was prepared last.
pub record PlaybackWorker (Pcm Decoder Encoder : Type 0) : Type 0 where
  pub current_video_id : Option String
  pub recovery : PlaybackRecovery
  pub position : PlaybackPosition
  pub prebuffer_target_ms : ℕ
  pub normalizer : DiscordOpusFrameNormalizer Pcm Decoder Encoder
  pub pending_frames : List OpusFrame

-- `drain_pending_frames`, with the frames that are still pending.
abbrev pub Drained : Type 0
Drained = Result PlaybackError Bool × List OpusFrame × OpusFrameQueue

abbrev pub drained_one :
    List OpusFrame
    → (OpusFrameQueue → Drained)
    → Result OpusFrame (Unit {0}) × OpusFrameQueue
    → Drained
drained_one frames rest (ok u, queue) = rest queue
drained_one frames rest (err refused, queue) = (err buffer_full, frames, queue)
drained_one frames rest (panic, queue) = (panic, frames, queue)

unfoldable pub drain_pending_frames : List OpusFrame → OpusFrameQueue → Drained
drain_pending_frames [] queue = (ok true, [], queue)
drain_pending_frames (frame ∷ frames) queue =
    let rest = drain_pending_frames frames in
    if can_fit_frame queue frame
    then drained_one frames rest (push queue frame)
    else (ok false, frame ∷ frames, queue)

-- `enqueue_frames`, with the frames that are pending.
abbrev pub Enqueued : Type 0
Enqueued = Result PlaybackError (Unit {0}) × List OpusFrame × OpusFrameQueue

abbrev pub enqueued_one :
    List OpusFrame
    → (OpusFrameQueue → Enqueued)
    → Result OpusFrame (Unit {0}) × OpusFrameQueue
    → Enqueued
enqueued_one pending rest (ok u, queue) = rest queue
enqueued_one pending rest (err refused, queue) = (err buffer_full, pending, queue)
enqueued_one pending rest (panic, queue) = (panic, pending, queue)

unfoldable pub enqueue_frames : List OpusFrame → List OpusFrame → OpusFrameQueue → Enqueued
enqueue_frames [] pending queue = (ok tt, pending, queue)
enqueue_frames (frame ∷ frames) pending queue =
    let rest = enqueue_frames frames in
    if can_fit_frame queue frame
    then enqueued_one pending (rest pending) (push queue frame)
    else rest (pending ++ (frame ∷ [])) queue

module _ {Pcm Decoder Encoder : Type 0} (codec : Codec Pcm Decoder Encoder) where
  unfoldable pub new_worker : PlaybackWorker Pcm Decoder Encoder
  new_worker = record {
    current_video_id = none;
    recovery = new_recovery;
    position = default_position;
    prebuffer_target_ms = default_prebuffer_target_ms;
    normalizer = new_normalizer codec;
    pending_frames = [];
  }

  unfoldable pub reset : PlaybackWorker Pcm Decoder Encoder → PlaybackWorker Pcm Decoder Encoder
  reset w = record w {
    current_video_id = none;
    recovery = Recovery.reset w.recovery;
    position = default_position;
    normalizer = new_normalizer codec;
    pending_frames = [];
  }

unfoldable pub set_prebuffer_target_ms :
    {Pcm Decoder Encoder : Type 0}
    → ℕ
    → PlaybackWorker Pcm Decoder Encoder
    → PlaybackWorker Pcm Decoder Encoder
set_prebuffer_target_ms target_ms w = record w {
  prebuffer_target_ms = max target_ms default_prebuffer_target_ms;
}

-- The worker with what a method borrows.
pub record Filling (Pcm Decoder Encoder N : Type 0) : Type 0 where
  pub worker : PlaybackWorker Pcm Decoder Encoder
  pub source : PlaybackSource
  pub queue : OpusFrameQueue
  pub network : N

module _ {Pcm Decoder Encoder N : Type 0} (codec : Codec Pcm Decoder Encoder) (client : Http N)
    (resolver : Resolver N) (parser : WebmParser) where
  abbrev pub Filled : Type 0
  Filled = Filling Pcm Decoder Encoder N

  abbrev pub Step : Type 0 → Type 0
  Step A = Result PlaybackError A × Filled

  abbrev pub with_frames :
      {A : Type 0} → Filled → Result PlaybackError A × List OpusFrame × OpusFrameQueue → Step A
  with_frames s (result, pending, queue) =
      (result, record s { worker = record s.worker { pending_frames = pending }; queue = queue })

  unfoldable pub drain_step : Filled → Step Bool
  drain_step s = with_frames s (drain_pending_frames s.worker.pending_frames s.queue)

  unfoldable pub enqueue_step : List OpusFrame → Filled → Step (Unit {0})
  enqueue_step frames s = with_frames s (enqueue_frames frames s.worker.pending_frames s.queue)

  abbrev pub with_normalizer :
      {A : Type 0}
      → Filled
      → Result PlaybackError A × DiscordOpusFrameNormalizer Pcm Decoder Encoder
      → Step A
  with_normalizer s (result, normalizer) =
      (result, record s { worker = record s.worker { normalizer = normalizer } })

  unfoldable pub buffer_packet : DemuxedPacket → Filled → Step (Unit {0})
  buffer_packet packet s =
      and_then (with_normalizer s (push_packet codec packet s.worker.normalizer)) (λ frames s.
        enqueue_step frames (record s {
          worker = record s.worker { position = record_buffered packet s.worker.position };
        }))

  abbrev pub on_track : {A : Type 0} → Filled → OnTrack A N → Step A
  on_track s (result, recovery, source, network) = (
    result,
    record s {
      worker = record s.worker { recovery = recovery };
      source = source;
      network = network;
    },
  )

  unfoldable pub read_step : Option String → Filled → Step (Option Bytes)
  read_step video_id s =
      on_track s
        (read_stream_chunk client resolver video_id (s.worker.recovery, s.source, s.network))

  -- The queue is full, or has as much as is wanted.
  abbrev pub is_enough : ℕ → Filled → Bool
  is_enough target_samples s = leb target_samples s.queue.duration_samples || is_full s.queue

  abbrev pub has_frames : List OpusFrame → Bool
  has_frames [] = false
  has_frames (frame ∷ frames) = true

  -- The packets of a chunk; those that are not wanted any more wait in the source.
  unfoldable pub take_packets : ℕ → List DemuxedPacket → Filled → Step (Unit {0})
  take_packets target_samples [] s = (ok tt, s)
  take_packets target_samples (packet ∷ packets) s =
      let rest = take_packets target_samples packets in
      if is_enough target_samples s || has_frames s.worker.pending_frames
      then (
        ok tt,
        record s {
          source = record s.source {
            pending_packets = s.source.pending_packets ++ (packet ∷ packets);
          };
        },
      )
      else and_then (buffer_packet packet s) (λ u s'. rest s')

  abbrev pub with_demux :
      Filled → Result PlaybackError (List DemuxedPacket × WebmOpusDemux) → Step (List DemuxedPacket)
  with_demux s (ok (packets, demux)) =
      (ok packets, record s { source = record s.source { demux = demux } })
  with_demux s (err e) = (err e, s)
  with_demux s panic = (panic, s)

  -- A chunk goes to the demuxer before its packets are drained.
  unfoldable pub demux_chunk : Bytes → Filled → Step (List DemuxedPacket)
  demux_chunk chunk s =
      let pushed = push_bytes s.source.demux chunk in
      with_demux (record s { source = record s.source { demux = pushed } })
        (drain_packets parser pushed)

  -- At the end of the stream.
  unfoldable pub flush_step : Filled → Step (Unit {0})
  flush_step s =
      and_then (with_normalizer s (flush codec s.worker.normalizer))
        (λ frames s'. enqueue_step frames s')

  -- Whether the loop goes on after a round.
  abbrev pub on_chunk : ℕ → Option Bytes → Filled → Step Bool
  on_chunk target_samples none s = and_then (flush_step s) (λ u s'. (ok false, s'))
  on_chunk target_samples (some chunk) s =
      and_then (demux_chunk chunk s)
        (λ packets s'. and_then (take_packets target_samples packets s') (λ u s''. (ok true, s'')))

  abbrev pub on_source : Option String → ℕ → List DemuxedPacket → Filled → Step Bool
  on_source video_id target_samples (packet ∷ packets) s =
      and_then
        (buffer_packet packet (record s { source = record s.source { pending_packets = packets } }))
        (λ u s'. (ok true, s'))
  on_source video_id target_samples [] s = and_then (read_step video_id s) (on_chunk target_samples)

  abbrev pub on_drained : Option String → ℕ → Bool → Filled → Step Bool
  on_drained video_id target_samples drained s =
      if not drained || is_enough target_samples s
      then (ok false, s)
      else on_source video_id target_samples s.source.pending_packets s

  unfoldable pub fill_round : Option String → ℕ → Filled → Step Bool
  fill_round video_id target_samples s =
      and_then (drain_step s) (on_drained video_id target_samples)

  abbrev pub go_on : (Filled → Option (Step (Unit {0}))) → Step Bool → Option (Step (Unit {0}))
  go_on next (ok true, s) = next s
  go_on next (ok false, s) = some (ok tt, s)
  go_on next (err e, s) = some (err e, s)
  go_on next (panic, s) = some (panic, s)

  -- The `while`, on fuel for its rounds; `none` where that runs out.
  unfoldable pub fill_loop : ℕ → Option String → ℕ → Filled → Option (Step (Unit {0}))
  fill_loop zero video_id target_samples s = none
  fill_loop (suc fuel) video_id target_samples s =
      let next = fill_loop fuel video_id target_samples in
      if is_enough target_samples s
      then some (ok tt, s)
      else go_on next (fill_round video_id target_samples s)

  unfoldable pub fill_queue_to_duration_ms_for_video :
      ℕ → Option String → ℕ → Filled → Option (Step (Unit {0}))
  fill_queue_to_duration_ms_for_video fuel video_id target_ms s =
      fill_loop fuel video_id (samples_from_duration_ms_u64 (max target_ms 1)) s

  -- `fill_queue` has the prebuffer target.
  unfoldable pub fill_queue_to_duration_ms : ℕ → ℕ → Filled → Option (Step (Unit {0}))
  fill_queue_to_duration_ms fuel target_ms s =
      fill_queue_to_duration_ms_for_video fuel s.worker.current_video_id target_ms s

  -- What `prepare` gives: the source, or an error, with the worker, the queue and the network.
  abbrev pub Prepared : Type 0
  Prepared =
      Result PlaybackError PlaybackSource × PlaybackWorker Pcm Decoder Encoder × OpusFrameQueue × N

  abbrev pub end_of_prepare : String → Step (Unit {0}) → Prepared
  end_of_prepare video_id (err e, s) = (err e, s.worker, s.queue, s.network)
  end_of_prepare video_id (panic, s) = (panic, s.worker, s.queue, s.network)
  end_of_prepare video_id (ok u, s) =
      if is_empty s.queue
      then (err (media_parse "unexpected end of stream"), s.worker, s.queue, s.network)
      else (ok s.source, record s.worker { current_video_id = some video_id }, s.queue, s.network)

  abbrev pub ended_prepare : String → Option (Step (Unit {0})) → Option Prepared
  ended_prepare video_id none = none
  ended_prepare video_id (some step) = some (end_of_prepare video_id step)

  module _ (fuel : ℕ) where
    abbrev pub on_recovered :
        String
        → PlaybackWorker Pcm Decoder Encoder
        → OpusFrameQueue
        → Option (Opened N)
        → Option Prepared
    on_recovered video_id w queue none = none
    on_recovered video_id w queue (some (err e, r, n)) =
        some (err e, record w { recovery = r }, queue, n)
    on_recovered video_id w queue (some (panic, r, n)) =
        some (panic, record w { recovery = r }, queue, n)
    on_recovered video_id w queue (some (ok (source, position), r, n)) = ended_prepare video_id (
        fill_queue_to_duration_ms_for_video fuel (some video_id) w.prebuffer_target_ms (record {
          worker = record w { recovery = r; position = position };
          source = source;
          queue = queue;
          network = n;
        }))

    -- The position at which the track is resumed, and the worker with its position and frames cleared.
    abbrev pub same_video : PlaybackWorker Pcm Decoder Encoder → String → Bool
    same_video w video_id = elim w.current_video_id [
      | none ↦ false
      | some current ↦ str_eq current video_id
    ]

    abbrev pub resume_position : PlaybackWorker Pcm Decoder Encoder → String → ℕ
    resume_position w video_id =
        if same_video w video_id then w.position.sent_duration_samples else 0

    abbrev pub cleared :
        PlaybackWorker Pcm Decoder Encoder → String → PlaybackWorker Pcm Decoder Encoder
    cleared w video_id = record w {
      position = if same_video w video_id then w.position else default_position;
      normalizer = new_normalizer codec;
      pending_frames = [];
    }

    unfoldable pub prepare :
        String → PlaybackWorker Pcm Decoder Encoder → OpusFrameQueue → N → Option Prepared
    prepare video_id w queue n =
        if is_full queue
        then some (err buffer_full, w, queue, n)
        else on_recovered video_id (cleared w video_id) queue
            (recover client parser fuel resolver video_id (resume_position w video_id) w.recovery n)
