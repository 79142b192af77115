-- ===== src/Playback/Worker/Progress.antt =====
-- worker.rs: each round that fills the queue takes a packet that waits or moves the stream on.
use discord_voice_service.Common.{
  ℕ, ◌≤◌, ◌<◌, ◌≡◌, refl, sym, subst, ap, ◌∙◌, inl, inr, ◌⊎◌, Bool, true, false, not, ◌||◌, Option,
  none, some, List, [], ◌∷◌, String, length, Result, ok, err, panic, and_then, arith, Bool-cases,
}
use discord_voice_service.Common.Words.{u64_max}
use discord_voice_service.Common.Bytes.{Bytes}
use discord_voice_service.Playback.Error.{PlaybackError}
use discord_voice_service.Playback.OpusFrame.{OpusFrame}
use discord_voice_service.Playback.OpusQueue.{OpusFrameQueue}
use discord_voice_service.Playback.Position.{DemuxedPacket, record_buffered}
use discord_voice_service.Playback.Demux.{WebmParser, WebmOpusDemux, push_bytes, drain_packets}
use discord_voice_service.Playback.Normalizer.{Codec, push_packet}
use discord_voice_service.Playback.HttpStream.{HttpOpusStream, Http, offset}
use discord_voice_service.Playback.HttpStream.Pieces.{Serves}
use discord_voice_service.Playback.Source.{PlaybackSource}
use discord_voice_service.Playback.Recovery.{Resolver, OnTrack}
use discord_voice_service.Playback.Recovery.Retrying.{Arrives, read_stream_chunk-Arrives}
use discord_voice_service.Playback.Opening.Reaching.{IsInside, Delivered-IsInside}
use discord_voice_service.Playback.Worker.{
  Filling, with_frames, drain_pending_frames, drain_step, enqueue_step, with_normalizer,
  buffer_packet, on_track, read_step, is_enough, has_frames, take_packets, with_demux, demux_chunk,
  flush_step, on_chunk, on_source, on_drained, fill_round,
}

module _ {Pcm Decoder Encoder N : Type 0} (codec : Codec Pcm Decoder Encoder) (client : Http N)
    (resolver : Resolver N) (parser : WebmParser) where
  abbrev pub Filled : Type 0
  Filled = Filling Pcm Decoder Encoder N

  and_then-source :
      {A B : Type 0} (source : PlaybackSource) (first : Result PlaybackError A × Filled)
      (rest : A → Filled → Result PlaybackError B × Filled)
      → first.1.source ≡ source
      → ((a : A) (s : Filled) → (rest a s).1.source ≡ s.source)
      → (and_then first rest).1.source ≡ source
  and_then-source source (ok a, s) rest e h = h a s ∙ e
  and_then-source source (err x, s) rest e h = e
  and_then-source source (panic, s) rest e h = e

  buffer_packet-source :
      (packet : DemuxedPacket) (s : Filled)
      → (buffer_packet codec client resolver parser packet s).1.source ≡ s.source
  unfolding buffer_packet enqueue_step
  buffer_packet-source packet s =
      and_then-source s.source
        (with_normalizer codec client resolver parser s
          (push_packet codec packet s.worker.normalizer))
        (λ frames s'. enqueue_step codec client resolver parser frames (record s' {
          worker = record s'.worker { position = record_buffered packet s'.worker.position };
        }))
        refl (λ frames s'. refl)

  take_packets-stream :
      (target : ℕ) (packets : List DemuxedPacket) (s : Filled)
      → (take_packets codec client resolver parser target packets s).1.source.stream
        ≡ s.source.stream
  unfolding take_packets
  take_packets-stream target [] s = refl
  take_packets-stream target (packet ∷ packets) s =
      elim (Bool-cases (
        is_enough codec client resolver parser target s
        || has_frames codec client resolver parser s.worker.pending_frames)) [
          | inl enough ↦ rw enough
          | inr more ↦ rw more (
              buffered (buffer_packet codec client resolver parser packet s)
                (ap (λ (x : PlaybackSource). x.stream) (buffer_packet-source packet s))
                (take_packets-stream target packets))
        ]
    where
      buffered :
          (first : Result PlaybackError (Unit {0}) × Filled)
          → first.1.source.stream ≡ s.source.stream
          → ((s' : Filled)
              → (take_packets codec client resolver parser target packets s').1.source.stream
                ≡ s'.source.stream)
          → (and_then first
              (λ u s'. take_packets codec client resolver parser target packets s')).1.source.stream
            ≡ s.source.stream
      buffered (ok u, s') e ih = ih s' ∙ e
      buffered (err x, s') e ih = e
      buffered (panic, s') e ih = e

  -- A round that goes on has moved the stream on, or has taken a packet that waited.
  abbrev pub Progress : Bytes → Filled → Result PlaybackError Bool × Filled → Type 0
  Progress resource s (ok true, s') =
      IsInside resource s'.source.stream
      × ((offset s.source.stream < offset s'.source.stream)
          ⊎ ((offset s.source.stream ≡ offset s'.source.stream)
              × (length s'.source.pending_packets < length s.source.pending_packets)))
  Progress resource s _ = Unit

  abbrev SameStream : HttpOpusStream → Result PlaybackError Bool × Filled → Type 0
  SameStream stream (ok true, s) = s.source.stream ≡ stream
  SameStream stream _ = Unit

  after_demux-SameStream :
      (target : ℕ) (stream : HttpOpusStream)
      (first : Result PlaybackError (List DemuxedPacket) × Filled)
      → first.1.source.stream ≡ stream
      → SameStream stream (
          and_then first (λ packets s'.
            and_then
              (take_packets codec client resolver parser target packets s')
              (λ u s''. (ok true, s''))))
  after_demux-SameStream target stream (err e, s) same = tt
  after_demux-SameStream target stream (panic, s) same = tt
  after_demux-SameStream target stream (ok packets, s) same =
      taken (take_packets codec client resolver parser target packets s)
        (take_packets-stream target packets s ∙ same)
    where
      taken :
          (last : Result PlaybackError (Unit {0}) × Filled)
          → last.1.source.stream ≡ stream
          → SameStream stream (and_then last (λ u s''. (ok true, s'')))
      taken (ok u, s) e = e
      taken (err x, s) e = tt
      taken (panic, s) e = tt

  demux_chunk-stream :
      (chunk : Bytes) (s : Filled)
      → (demux_chunk codec client resolver parser chunk s).1.source.stream ≡ s.source.stream
  unfolding demux_chunk
  demux_chunk-stream chunk s = drained (drain_packets parser (push_bytes s.source.demux chunk))
    where
      drained :
          (d : Result PlaybackError (List DemuxedPacket × WebmOpusDemux))
          → (with_demux codec client resolver parser
              (record s { source = record s.source { demux = push_bytes s.source.demux chunk } })
              d).1.source.stream
            ≡ s.source.stream
      drained (ok (packets, demux)) = refl
      drained (err e) = refl
      drained panic = refl

  module _ (resource : Bytes) (small : length resource ≤ u64_max) (serves : Serves resource client)
      (video_id : Option String) (target : ℕ) where
    -- After a chunk that was read.
    read-Progress :
        (s : Filled) (read : OnTrack (Option Bytes) N)
        → Arrives resource (offset s.source.stream) read
        → Progress resource s (
            and_then
              (on_track codec client resolver parser s read)
              (on_chunk codec client resolver parser target))
    unfolding flush_step
    read-Progress s (err e, r, source, n) h = tt
    read-Progress s (panic, r, source, n) h = tt
    read-Progress s (ok none, r, source, n) h = flushed (
        flush_step codec client resolver parser
          (on_track codec client resolver parser {A = Option Bytes} s (ok none, r, source, n)).1)
      where
        flushed :
            (step : Result PlaybackError (Unit {0}) × Filled)
            → Progress resource s (and_then step (λ u s'. (ok false, s')))
        flushed (ok u, s') = tt
        flushed (err e, s') = tt
        flushed (panic, s') = tt
    read-Progress s (ok (some chunk), r, source, n) h =
        let (inside, on) =
          Delivered-IsInside resource small client serves parser 0 (offset s.source.stream) chunk
            source.stream n h in
        moved inside on _ (
          after_demux-SameStream target source.stream
            (demux_chunk codec client resolver parser chunk s') (demux_chunk-stream chunk s'))
      where
        s' : Filled
        s' = (on_track codec client resolver parser s (ok (some chunk), r, source, n)).1

        moved :
            IsInside resource source.stream
            → offset s.source.stream < offset source.stream
            → (round : Result PlaybackError Bool × Filled) → SameStream source.stream round
            → Progress resource s round
        moved inside on (ok true, t) same = (
          subst (IsInside resource) (sym same) inside,
          inl (subst (λ x. offset s.source.stream < offset x) (sym same) on),
        )
        moved inside on (ok false, t) same = tt
        moved inside on (err e, t) same = tt
        moved inside on (panic, t) same = tt

    on_source-Progress :
        (packets : List DemuxedPacket) (s : Filled)
        → IsInside resource s.source.stream
        → s.source.pending_packets ≡ packets
        → Progress resource s (on_source codec client resolver parser video_id target packets s)
    unfolding read_step
    on_source-Progress [] s (ahead, inside) e = read-Progress s _ (
        read_stream_chunk-Arrives resource small client serves resolver video_id s.worker.recovery
          s.source s.network ahead)
    on_source-Progress (packet ∷ packets) s inside e =
        buffered (buffer_packet codec client resolver parser packet _) (
          buffer_packet-source packet
            (record s { source = record s.source { pending_packets = packets } }))
      where
        buffered :
            (first : Result PlaybackError (Unit {0}) × Filled)
            → first.1.source ≡ record s.source { pending_packets = packets }
            → Progress resource s (and_then first (λ u s'. (ok true, s')))
        buffered (err x, t) same = tt
        buffered (panic, t) same = tt
        buffered (ok u, t) same =
            let stream : t.source.stream ≡ s.source.stream =
              ap (λ (x : PlaybackSource). x.stream) same in
            let left : t.source.pending_packets ≡ packets =
              ap (λ (x : PlaybackSource). x.pending_packets) same in
            (
              subst (IsInside resource) (sym stream) inside,
              inr (ap offset (sym stream), omega (arith, ap length e, ap length left)),
            )

    pub fill_round-Progress :
        (s : Filled)
        → IsInside resource s.source.stream
        → Progress resource s (fill_round codec client resolver parser video_id target s)
    unfolding fill_round drain_step
    fill_round-Progress s inside = drained (drain_pending_frames s.worker.pending_frames s.queue)
      where
        drained :
            (d : Result PlaybackError Bool × List OpusFrame × OpusFrameQueue)
            → Progress resource s (
                and_then
                  (with_frames codec client resolver parser s d)
                  (on_drained codec client resolver parser video_id target))
        drained (err e, pending, queue) = tt
        drained (panic, pending, queue) = tt
        drained (ok all, pending, queue) =
            let s' = record s {
              worker = record s.worker { pending_frames = pending };
              queue = queue;
            } in
            elim (Bool-cases (not all || is_enough codec client resolver parser target s')) [
              | inl enough ↦ rw enough tt
              | inr more ↦ rw more (on_source-Progress s.source.pending_packets s' inside refl)
            ]
