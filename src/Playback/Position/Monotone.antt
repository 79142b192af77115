-- ===== src/Playback/Position/Monotone.antt =====
-- position.rs: what buffering and sending does to the position over a whole stream.
use discord_voice_service.Common.{ℕ, ◌≤◌, max, ◌≡◌, ◌∙◌, refl, List, [], ◌∷◌, arith}
use discord_voice_service.Common.Words.{saturating_add}
use discord_voice_service.Playback.OpusFrame.{duration_ms_from_samples}
use discord_voice_service.Playback.Position.{DemuxedPacket, PlaybackPosition, record_buffered}

abbrev pub record_all : List DemuxedPacket → PlaybackPosition → PlaybackPosition
record_all [] p = p
record_all (packet ∷ rest) p = record_all rest (record_buffered packet p)

-- The latest end of the packets, in samples, where it is not before `from`.
abbrev pub buffered_until : ℕ → List DemuxedPacket → ℕ
buffered_until from [] = from
buffered_until from (packet ∷ rest) =
    buffered_until (max from (saturating_add packet.timestamp_samples packet.duration_samples)) rest

-- The milliseconds are not behind the samples.
abbrev pub IsCovered : PlaybackPosition → Type 0
IsCovered p = duration_ms_from_samples p.timestamp_samples ≤ p.timestamp_ms

record_buffered-IsCovered :
    (packet : DemuxedPacket) (p : PlaybackPosition) → IsCovered (record_buffered packet p)
unfolding record_buffered
record_buffered-IsCovered packet p = omega arith

record_buffered-timestamp_ms :
    (packet : DemuxedPacket) (p : PlaybackPosition)
    → p.timestamp_ms ≤ (record_buffered packet p).timestamp_ms
unfolding record_buffered
record_buffered-timestamp_ms packet p = omega arith

-- Buffering packets, in any order, moves the position to the latest of their ends, neither back nor
-- beyond it, touches neither the byte offset nor what is sent, and keeps the milliseconds not behind
-- the samples.
pub record_all_lem :
    (packets : List DemuxedPacket) (p : PlaybackPosition)
    → IsCovered p
    → ((record_all packets p).timestamp_samples ≡ buffered_until p.timestamp_samples packets)
      × (p.timestamp_ms ≤ (record_all packets p).timestamp_ms)
      × IsCovered (record_all packets p)
      × ((record_all packets p).byte_offset ≡ p.byte_offset)
      × ((record_all packets p).sent_duration_samples ≡ p.sent_duration_samples)
record_all_lem [] p covered = (refl, omega arith, covered, refl, refl)
record_all_lem (packet ∷ rest) p covered =
    let (samples, ms, later, bytes, sent) =
      record_all_lem rest (record_buffered packet p) (record_buffered-IsCovered packet p) in
    (
      samples ∙ (unfold record_buffered in refl),
      le_trans (record_buffered-timestamp_ms packet p) ms,
      later,
      bytes ∙ (unfold record_buffered in refl),
      sent ∙ (unfold record_buffered in refl),
    )
  where
    le_trans : {a b c : ℕ} → a ≤ b → b ≤ c → a ≤ c
    le_trans p q = omega arith
