-- ===== src/Playback/Opening/Resuming.antt =====
-- recovery.rs: what an opened track has in store for the position at which it is resumed.
use discord_voice_service.Common.{
  ℕ, zero, suc, ◌≤◌, ◌≡◌, refl, inl, inr, Option, none, some, List, [], ◌∷◌, ◌++◌, String, ltb,
  ◌==◌, sym, ap, ◌∙◌, max, append-nil, if◌then◌else◌, Result, ok, err, panic, arith, Bool-cases,
}
use discord_voice_service.Common.Words.{saturating_add}
use discord_voice_service.Playback.Error.{PlaybackError}
use discord_voice_service.Playback.Position.{
  DemuxedPacket, PlaybackPosition, record_buffered, set_sent_duration_samples,
}
use discord_voice_service.Playback.Position.Monotone.{buffered_until}
use discord_voice_service.Playback.Demux.{WebmParser, WebmOpusDemux, drain_packets, push_bytes}
use discord_voice_service.Playback.HttpStream.{Http}
use discord_voice_service.Playback.Source.{ResolvedPlaybackSource, PlaybackSource}
use discord_voice_service.Playback.Recovery.{PlaybackRecovery}
use discord_voice_service.Playback.Opening.{
  Buffered, OnStream, Opened, keep_packet, keep_packets, kept, absorb, wants_more, absorbed,
  on_chunk, fill_loop, finish, finished, packet_end_samples, packet_overlaps_resume,
}

-- The packets that end after a position, in their order.
abbrev pub ending_after : ℕ → List DemuxedPacket → List DemuxedPacket
ending_after resume [] = []
ending_after resume (packet ∷ packets) =
    if ltb resume (saturating_add packet.timestamp_samples packet.duration_samples)
    then packet ∷ ending_after resume packets
    else ending_after resume packets

-- Of some packets that reach up to `reached`, those that end after the position wait.
abbrev pub Waiting : ℕ → List DemuxedPacket → ℕ → Type 0
Waiting resume pending reached =
    (given : List DemuxedPacket) × (pending ≡ ending_after resume given)
    × (reached ≡ buffered_until 0 given)

-- An open track has just the packets that end after the position, was read up to it, and counts what is
-- before it as sent.
abbrev pub Resumes : {N : Type 0} → ℕ → Option (Opened N) → Type 0
Resumes resume (some (ok (source, position), r, n)) =
    Waiting resume source.pending_packets position.timestamp_samples
    × (resume ≤ position.timestamp_samples)
    × (position.sent_duration_samples ≡ resume)
Resumes resume _ = Unit

-- While a track is opened.
abbrev pub IsReady : ℕ → Buffered → Type 0
IsReady resume b =
    Waiting resume b.pending_packets b.playback_position.timestamp_samples
    × (b.playback_position.sent_duration_samples ≡ 0)

ending_after-snoc :
    (resume : ℕ) (packets : List DemuxedPacket) (packet : DemuxedPacket)
    → ending_after resume (packets ++ (packet ∷ []))
      ≡ ending_after resume packets ++ ending_after resume (packet ∷ [])
ending_after-snoc resume [] packet = refl
ending_after-snoc resume (first ∷ packets) packet =
    elim (Bool-cases (ltb resume (saturating_add first.timestamp_samples first.duration_samples))) [
      | inl after ↦ rw after (ap (λ l. first ∷ l) (ending_after-snoc resume packets packet))
      | inr before ↦ rw before (ending_after-snoc resume packets packet)
    ]

buffered_until-snoc :
    (from : ℕ) (packets : List DemuxedPacket) (packet : DemuxedPacket)
    → buffered_until from (packets ++ (packet ∷ []))
      ≡ max
          (buffered_until from packets)
          (saturating_add packet.timestamp_samples packet.duration_samples)
buffered_until-snoc from [] packet = refl
buffered_until-snoc from (first ∷ packets) packet =
    buffered_until-snoc (max from (saturating_add first.timestamp_samples first.duration_samples))
      packets packet

kept_waiting :
    (resume : ℕ) (packet : DemuxedPacket) (b : Buffered)
    → (keep_packet resume packet b).pending_packets
      ≡ b.pending_packets ++ ending_after resume (packet ∷ [])
unfolding keep_packet packet_overlaps_resume packet_end_samples
kept_waiting resume packet b =
    elim (Bool-cases
      (ltb resume (saturating_add packet.timestamp_samples packet.duration_samples))) [
        | inl after ↦ rw after refl
        | inr before ↦ rw before (sym (append-nil b.pending_packets))
      ]

keep_packet-IsReady :
    (resume : ℕ) (packet : DemuxedPacket) (b : Buffered)
    → IsReady resume b
    → IsReady resume (keep_packet resume packet b)
keep_packet-IsReady resume packet b ((given, waits, reached), unsent) = (
  (
    given ++ (packet ∷ []),
    kept_waiting resume packet b
        ∙ ap (λ l. l ++ ending_after resume (packet ∷ [])) waits
        ∙ sym (ending_after-snoc resume given packet),
    (unfold keep_packet record_buffered in
        ap (λ t. max t (saturating_add packet.timestamp_samples packet.duration_samples)) reached
        ∙ sym (buffered_until-snoc 0 given packet)),
  ),
  (unfold keep_packet record_buffered in unsent),
)

keep_packets-IsReady :
    (resume : ℕ) (packets : List DemuxedPacket) (b : Buffered)
    → IsReady resume b
    → IsReady resume (keep_packets resume packets b)
unfolding keep_packets
keep_packets-IsReady resume [] b h = h
keep_packets-IsReady resume (packet ∷ packets) b h =
    keep_packets-IsReady resume packets (keep_packet resume packet b)
      (keep_packet-IsReady resume packet b h)

abbrev pub ReadyResult : ℕ → Result PlaybackError Buffered → Type 0
ReadyResult resume (ok b) = IsReady resume b
ReadyResult resume _ = Unit

pub absorb-ReadyResult :
    (parser : WebmParser) (resume : ℕ) (chunk : List ℕ) (b : Buffered)
    → IsReady resume b
    → ReadyResult resume (absorb parser resume chunk b)
unfolding absorb
absorb-ReadyResult parser resume chunk b h =
    kept-Ready (drain_packets parser (push_bytes b.demux chunk))
  where
    kept-Ready :
        (drained : Result PlaybackError (List DemuxedPacket × WebmOpusDemux))
        → ReadyResult resume (kept resume b drained)
    kept-Ready (ok (packets, demux)) =
        keep_packets-IsReady resume packets (record b { demux = demux }) h
    kept-Ready (err e) = tt
    kept-Ready panic = tt

abbrev pub ResumesFrom : ℕ → Result PlaybackError (PlaybackSource × PlaybackPosition) → Type 0
ResumesFrom resume (ok (source, position)) =
    Waiting resume source.pending_packets position.timestamp_samples
    × (resume ≤ position.timestamp_samples)
    × (position.sent_duration_samples ≡ resume)
ResumesFrom resume _ = Unit

module _ {N : Type 0} (client : Http N) (parser : WebmParser) (resume : ℕ) where
  finish-Resumes :
      (resolved : ResolvedPlaybackSource) (b : Buffered)
      → IsReady resume b
      → ResumesFrom resume (finish client parser resolved resume b)
  unfolding finish set_sent_duration_samples
  finish-Resumes resolved b (h, unsent) =
      elim (Bool-cases (ltb b.playback_position.timestamp_samples resume)) [
        | inl early ↦ rw early tt
        | inr reached ↦ rw reached (elim (Bool-cases (resume == 0)) [
          | inl start ↦ rw start (h, ground arith, ground arith)
          | inr later ↦ rw later (h, ground arith, refl)
        ])
      ]

  -- The loop, whatever it reads.
  abbrev pub ReadyLoop : Option (Result PlaybackError Buffered × N) → Type 0
  ReadyLoop (some (ok b, n)) = IsReady resume b
  ReadyLoop _ = Unit

  pub absorbed-ReadyLoop :
      (next : Buffered → N → Option (Result PlaybackError Buffered × N)) (n : N)
      → ((b : Buffered) (n : N) → IsReady resume b → ReadyLoop (next b n))
      → (result : Result PlaybackError Buffered) → ReadyResult resume result
      → ReadyLoop (absorbed client parser next n result)
  absorbed-ReadyLoop next n h (ok b) ready = h b n ready
  absorbed-ReadyLoop next n h (err e) ready = tt
  absorbed-ReadyLoop next n h panic ready = tt

  on_chunk-ReadyLoop :
      (next : Buffered → N → Option (Result PlaybackError Buffered × N))
      → ((b : Buffered) (n : N) → IsReady resume b → ReadyLoop (next b n))
      → (b : Buffered) (reading : OnStream (Option (List ℕ)) N) → IsReady resume b
      → ReadyLoop (on_chunk client parser next resume b reading)
  on_chunk-ReadyLoop next h b (ok (some chunk), stream, n) ready =
      absorbed-ReadyLoop next n h _
        (absorb-ReadyResult parser resume chunk (record b { stream = stream }) ready)
  on_chunk-ReadyLoop next h b (ok none, stream, n) ready = ready
  on_chunk-ReadyLoop next h b (err e, stream, n) ready = tt
  on_chunk-ReadyLoop next h b (panic, stream, n) ready = tt

  pub fill_loop-ReadyLoop :
      (fuel : ℕ) (url : String) (b : Buffered) (n : N)
      → IsReady resume b
      → ReadyLoop (fill_loop client parser fuel url resume b n)
  unfolding fill_loop
  fill_loop-ReadyLoop zero url b n ready = tt
  fill_loop-ReadyLoop (suc fuel) url b n ready = elim (Bool-cases (wants_more resume b)) [
    | inl more ↦ rw more (
        on_chunk-ReadyLoop (fill_loop client parser fuel url resume) (fill_loop-ReadyLoop fuel url)
          b _ ready)
    | inr enough ↦ rw enough ready
  ]

  pub finished-Resumes :
      (resolved : ResolvedPlaybackSource) (r : PlaybackRecovery)
      (loop : Option (Result PlaybackError Buffered × N))
      → ReadyLoop loop
      → Resumes resume (finished client parser resolved resume r loop)
  finished-Resumes resolved r none ready = tt
  finished-Resumes resolved r (some (err e, n)) ready = tt
  finished-Resumes resolved r (some (panic, n)) ready = tt
  finished-Resumes resolved r (some (ok b, n)) ready =
      resumes (finish client parser resolved resume b) (finish-Resumes resolved b ready)
    where
      resumes :
          (result : Result PlaybackError (PlaybackSource × PlaybackPosition))
          → ResumesFrom resume result
          → Resumes resume (some (result, r, n))
      resumes (ok (source, position)) h = h
      resumes (err e) h = tt
      resumes panic h = tt
