-- ===== src/Playback/Worker/Limits.antt =====
-- worker.rs: what filling the queue keeps, and where a track that is prepared again goes on.
use discord_voice_service.Common.{
  ℕ, zero, suc, ◌≡◌, inl, inr, Bool, true, false, not, ◌||◌, Option, none, some, List, [], ◌∷◌,
  ◌++◌, String, Result, ok, err, panic, and_then, Bool-cases,
}
use discord_voice_service.Common.Bytes.{Bytes}
use discord_voice_service.Playback.Error.{PlaybackError}
use discord_voice_service.Playback.OpusFrame.{OpusFrame}
use discord_voice_service.Playback.OpusQueue.{OpusFrameQueue, can_fit_frame, push}
use discord_voice_service.Playback.OpusQueue.Invariant.{IsValid, push-IsValid}
use discord_voice_service.Playback.Position.{DemuxedPacket, record_buffered}
use discord_voice_service.Playback.Demux.{WebmParser, WebmOpusDemux, push_bytes, drain_packets}
use discord_voice_service.Playback.Normalizer.{Codec, push_packet, flush}
use discord_voice_service.Playback.HttpStream.{Http}
use discord_voice_service.Playback.Recovery.{Resolver}
use discord_voice_service.Playback.Worker.{
  Filling, Drained, Enqueued, drain_pending_frames, drained_one, enqueue_frames, enqueued_one,
  drain_step, enqueue_step, with_normalizer, buffer_packet, read_step, is_enough, has_frames,
  take_packets, with_demux, demux_chunk, flush_step, on_chunk, on_source, on_drained, fill_round,
  go_on, fill_loop,
}

drained_one-IsValid :
    (frames : List OpusFrame) (rest : OpusFrameQueue → Drained)
    → ((queue : OpusFrameQueue) → IsValid queue → IsValid (rest queue).2)
    → (result : Result OpusFrame (Unit {0}) × OpusFrameQueue) → IsValid result.1
    → IsValid (drained_one frames rest result).2
drained_one-IsValid frames rest h (ok u, queue) v = h queue v
drained_one-IsValid frames rest h (err e, queue) v = v
drained_one-IsValid frames rest h (panic, queue) v = v

enqueued_one-IsValid :
    (pending : List OpusFrame) (rest : OpusFrameQueue → Enqueued)
    → ((queue : OpusFrameQueue) → IsValid queue → IsValid (rest queue).2)
    → (result : Result OpusFrame (Unit {0}) × OpusFrameQueue) → IsValid result.1
    → IsValid (enqueued_one pending rest result).2
enqueued_one-IsValid pending rest h (ok u, queue) v = h queue v
enqueued_one-IsValid pending rest h (err e, queue) v = v
enqueued_one-IsValid pending rest h (panic, queue) v = v

drain_pending_frames-IsValid :
    (frames : List OpusFrame) (queue : OpusFrameQueue)
    → IsValid queue
    → IsValid (drain_pending_frames frames queue).2
unfolding drain_pending_frames
drain_pending_frames-IsValid [] queue v = v
drain_pending_frames-IsValid (frame ∷ frames) queue v =
    elim (Bool-cases (can_fit_frame queue frame)) [
      | inl fits ↦ rw fits (
          drained_one-IsValid frames (drain_pending_frames frames)
            (drain_pending_frames-IsValid frames) (push queue frame) (push-IsValid queue frame v))
      | inr full ↦ rw full v
    ]

enqueue_frames-IsValid :
    (frames pending : List OpusFrame) (queue : OpusFrameQueue)
    → IsValid queue
    → IsValid (enqueue_frames frames pending queue).2
unfolding enqueue_frames
enqueue_frames-IsValid [] pending queue v = v
enqueue_frames-IsValid (frame ∷ frames) pending queue v =
    elim (Bool-cases (can_fit_frame queue frame)) [
      | inl fits ↦ rw fits (
          enqueued_one-IsValid pending (enqueue_frames frames pending)
            (enqueue_frames-IsValid frames pending) (push queue frame) (push-IsValid queue frame v))
      | inr full ↦ rw full (enqueue_frames-IsValid frames (pending ++ (frame ∷ [])) queue v)
    ]

module _ {Pcm Decoder Encoder N : Type 0} (codec : Codec Pcm Decoder Encoder) (client : Http N)
    (resolver : Resolver N) (parser : WebmParser) (sent : ℕ) where
  abbrev Filled : Type 0
  Filled = Filling Pcm Decoder Encoder N

  -- The limits of the queue hold, and so many samples count as sent.
  abbrev pub IsKept : Filling Pcm Decoder Encoder N → Type 0
  IsKept s = IsValid s.queue × (s.worker.position.sent_duration_samples ≡ sent)

  -- A step that keeps this in every outcome.
  Keeps : {A : Type 0} → Result PlaybackError A × Filled → Type 0
  Keeps step = IsKept step.1

  Keeps-intro : {A : Type 0} (step : Result PlaybackError A × Filled) → IsKept step.1 → Keeps step
  unfolding Keeps
  Keeps-intro step kept = kept

  Keeps-elim : {A : Type 0} (step : Result PlaybackError A × Filled) → Keeps step → IsKept step.1
  unfolding Keeps
  Keeps-elim step kept = kept

  and_then-Keeps :
      {A B : Type 0} (first : Result PlaybackError A × Filled)
      (rest : A → Filled → Result PlaybackError B × Filled)
      → Keeps first
      → ((a : A) (s : Filled) → IsKept s → Keeps (rest a s))
      → Keeps (and_then first rest)
  unfolding Keeps
  and_then-Keeps (ok a, s) rest kept h = h a s kept
  and_then-Keeps (err e, s) rest kept h = kept
  and_then-Keeps (panic, s) rest kept h = kept

  enqueue_step-Keeps :
      (frames : List OpusFrame) (s : Filled)
      → IsKept s
      → Keeps (enqueue_step codec client resolver parser frames s)
  unfolding enqueue_step
  enqueue_step-Keeps frames s (v, same) =
      Keeps-intro _ (enqueue_frames-IsValid frames s.worker.pending_frames s.queue v, same)

  buffer_packet-Keeps :
      (packet : DemuxedPacket) (s : Filled)
      → IsKept s
      → Keeps (buffer_packet codec client resolver parser packet s)
  unfolding buffer_packet record_buffered
  buffer_packet-Keeps packet s kept =
      and_then-Keeps
        (with_normalizer codec client resolver parser s
          (push_packet codec packet s.worker.normalizer))
        (λ frames s'. enqueue_step codec client resolver parser frames (record s' {
          worker = record s'.worker { position = record_buffered packet s'.worker.position };
        }))
        (Keeps-intro _ kept) (λ frames s' kept'. enqueue_step-Keeps frames _ kept')

  take_packets-Keeps :
      (target : ℕ) (packets : List DemuxedPacket) (s : Filled)
      → IsKept s
      → Keeps (take_packets codec client resolver parser target packets s)
  unfolding take_packets
  take_packets-Keeps target [] s kept = Keeps-intro _ kept
  take_packets-Keeps target (packet ∷ packets) s kept =
      elim (Bool-cases (
        is_enough codec client resolver parser target s
        || has_frames codec client resolver parser s.worker.pending_frames)) [
          | inl enough ↦ rw enough (Keeps-intro _ kept)
          | inr more ↦ rw more (
              and_then-Keeps (buffer_packet codec client resolver parser packet s)
                (λ u s'. take_packets codec client resolver parser target packets s')
                (buffer_packet-Keeps packet s kept)
                (λ u s' kept'. take_packets-Keeps target packets s' kept'))
        ]

  demux_chunk-Keeps :
      (chunk : Bytes) (s : Filled)
      → IsKept s
      → Keeps (demux_chunk codec client resolver parser chunk s)
  unfolding demux_chunk
  demux_chunk-Keeps chunk s kept =
      with_demux-Keeps _ (drain_packets parser (push_bytes s.source.demux chunk)) kept
    where
      with_demux-Keeps :
          (s : Filled) (drained : Result PlaybackError (List DemuxedPacket × WebmOpusDemux))
          → IsKept s
          → Keeps (with_demux codec client resolver parser s drained)
      with_demux-Keeps s (ok (packets, demux)) kept = Keeps-intro _ kept
      with_demux-Keeps s (err e) kept = Keeps-intro _ kept
      with_demux-Keeps s panic kept = Keeps-intro _ kept

  on_chunk-Keeps :
      (target : ℕ) (chunk : Option Bytes) (s : Filled)
      → IsKept s
      → Keeps (on_chunk codec client resolver parser target chunk s)
  unfolding flush_step
  on_chunk-Keeps target none s kept =
      and_then-Keeps (flush_step codec client resolver parser s) (λ u s'. (ok false, s'))
        (and_then-Keeps
          (with_normalizer codec client resolver parser s (flush codec s.worker.normalizer))
          (λ frames s'. enqueue_step codec client resolver parser frames s') (Keeps-intro _ kept)
          (λ frames s' kept'. enqueue_step-Keeps frames s' kept'))
        (λ u s' kept'. Keeps-intro (ok false, s') kept')
  on_chunk-Keeps target (some chunk) s kept =
      and_then-Keeps (demux_chunk codec client resolver parser chunk s)
        (λ packets s'.
          and_then (take_packets codec client resolver parser target packets s')
            (λ u s''. (ok true, s'')))
        (demux_chunk-Keeps chunk s kept)
        (λ packets s' kept'.
          and_then-Keeps (take_packets codec client resolver parser target packets s')
            (λ u s''. (ok true, s'')) (take_packets-Keeps target packets s' kept')
            (λ u s'' kept''. Keeps-intro (ok true, s'') kept''))

  on_source-Keeps :
      (video_id : Option String) (target : ℕ) (packets : List DemuxedPacket) (s : Filled)
      → IsKept s
      → Keeps (on_source codec client resolver parser video_id target packets s)
  unfolding read_step
  on_source-Keeps video_id target (packet ∷ packets) s kept =
      let s = record s { source = record s.source { pending_packets = packets } } in
      and_then-Keeps (buffer_packet codec client resolver parser packet s) (λ u s'. (ok true, s'))
        (buffer_packet-Keeps packet s kept) (λ u s' kept'. Keeps-intro (ok true, s') kept')
  on_source-Keeps video_id target [] s kept =
      and_then-Keeps (read_step codec client resolver parser video_id s)
        (on_chunk codec client resolver parser target) (Keeps-intro _ kept)
        (λ chunk s' kept'. on_chunk-Keeps target chunk s' kept')

  fill_round-Keeps :
      (video_id : Option String) (target : ℕ) (s : Filled)
      → IsKept s
      → Keeps (fill_round codec client resolver parser video_id target s)
  unfolding fill_round drain_step
  fill_round-Keeps video_id target s (v, same) =
      and_then-Keeps (drain_step codec client resolver parser s)
        (on_drained codec client resolver parser video_id target)
        (Keeps-intro _ (drain_pending_frames-IsValid s.worker.pending_frames s.queue v, same))
        (λ drained s' kept.
          elim (Bool-cases (not drained || is_enough codec client resolver parser target s')) [
            | inl enough ↦ rw enough (Keeps-intro _ kept)
            | inr more ↦ rw more (on_source-Keeps video_id target s'.source.pending_packets s' kept)
          ])

  abbrev pub KeepsAtEnd : Option (Result PlaybackError (Unit {0}) × Filled) → Type 0
  KeepsAtEnd none = Unit
  KeepsAtEnd (some step) = IsKept step.1

  -- However far the queue is filled, and also where an error stops it, its limits hold and its counters
  -- are exact, and what counts as sent is left alone.
  pub fill_loop-IsKept :
      (fuel : ℕ) (video_id : Option String) (target : ℕ) (s : Filling Pcm Decoder Encoder N)
      → IsKept s
      → KeepsAtEnd (fill_loop codec client resolver parser fuel video_id target s)
  unfolding fill_loop
  fill_loop-IsKept zero video_id target s kept = tt
  fill_loop-IsKept (suc fuel) video_id target s kept =
      elim (Bool-cases (is_enough codec client resolver parser target s)) [
        | inl enough ↦ rw enough kept
        | inr more ↦ rw more (
            go_on-Keeps (fill_loop-IsKept fuel video_id target) _
              (Keeps-elim _ (fill_round-Keeps video_id target s kept)))
      ]
    where
      go_on-Keeps :
          ((s : Filled)
            → IsKept s
            → KeepsAtEnd (fill_loop codec client resolver parser fuel video_id target s))
          → (round : Result PlaybackError Bool × Filled) → IsKept round.1
          → KeepsAtEnd (
              go_on codec client resolver parser
                (fill_loop codec client resolver parser fuel video_id target)
                round)
      go_on-Keeps next (ok true, s) kept = next s kept
      go_on-Keeps next (ok false, s) kept = kept
      go_on-Keeps next (err e, s) kept = kept
      go_on-Keeps next (panic, s) kept = kept
