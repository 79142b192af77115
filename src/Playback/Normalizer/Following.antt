-- ===== src/Playback/Normalizer/Following.antt =====
-- opus_normalizer.rs: the positions of the frames that come out of any packets.
use discord_voice_service.Common.{
  ℕ, ◌≡◌, inl, inr, refl, ap, subst, ◌∙◌, Bool, true, ◌&&◌, Option, none, some, List, [], ◌∷◌, ◌++◌,
  ok, and_then, Bool-cases, arith,
}
use discord_voice_service.Common.Maybe.{unwrap_or}
use discord_voice_service.Common.Words.{saturating_add}
use discord_voice_service.Playback.OpusFrame.{OpusFrame, with_duration_samples, with_exact_metadata}
use discord_voice_service.Playback.Position.{DemuxedPacket}
use discord_voice_service.Playback.Normalizer.{
  Codec, Normalizer, Step, emit_ready_frames, ensure_encoder, frame_at, decode_packet,
  decoder_for_channels, push_packet, push_at, or_position, is_empty_list, new_normalizer,
  is_discord_passthrough_packet,
}
use discord_voice_service.Playback.Normalizer.Frames.{
  OnOk, and_then-OnOk, OnOk-imp, AtPositions, end_position, Splits, emit_ready_frames-Splits,
}

AtPositions-append :
    (position : ℕ) (xs ys : List OpusFrame)
    → AtPositions position xs
    → AtPositions (end_position position xs) ys
    → AtPositions position (xs ++ ys)
AtPositions-append position [] ys at later = later
AtPositions-append position (x ∷ xs) ys (here, size, at) later =
    (here, size, AtPositions-append (saturating_add position 960) xs ys at later)

end_position-append :
    (position : ℕ) (xs ys : List OpusFrame)
    → end_position (end_position position xs) ys ≡ end_position position (xs ++ ys)
end_position-append position [] ys = refl
end_position-append position (x ∷ xs) ys = end_position-append (saturating_add position 960) xs ys

and_right : (a b : Bool) → (a && b) ≡ true → b ≡ true
and_right a b h = ground arith

module _ {Pcm Decoder Encoder : Type 0} (codec : Codec Pcm Decoder Encoder) where
  -- What a step that gives frames has to do with a position.
  abbrev pub Follows : ℕ → List OpusFrame → Normalizer codec → Type 0
  Follows position frames n =
      AtPositions position frames
      × (n.next_output_position_samples ≡ some (end_position position frames))

  decode_packet-keeps :
      (packet : DemuxedPacket) (n : Normalizer codec) (position : ℕ)
      → n.next_output_position_samples ≡ some position
      → OnOk
          (λ u n'. n'.next_output_position_samples ≡ some position)
          (decode_packet codec packet n)
  unfolding decode_packet decoder_for_channels
  decode_packet-keeps packet n position known = ground arith

  passthrough-960 :
      (packet : DemuxedPacket)
      → is_discord_passthrough_packet packet ≡ true
      → packet.duration_samples ≡ 960
  unfolding is_discord_passthrough_packet
  passthrough-960 packet h = ground arith

  push_at-Follows :
      (packet : DemuxedPacket) (position : ℕ) (n : Normalizer codec)
      → n.next_output_position_samples ≡ some position
      → OnOk (Follows position) (push_at codec packet position n)
  unfolding frame_at with_exact_metadata with_duration_samples
  push_at-Follows packet position n known =
      elim (Bool-cases (is_empty_list n.pending_pcm && is_discord_passthrough_packet packet)) [
        | inl through ↦ rw through (
          (refl, refl, tt),
          ap (λ d. some (saturating_add position d))
              (passthrough-960 packet (and_right _ _ through)),
        )
        | inr decoding ↦ rw decoding (
            and_then-OnOk (Follows position) (decode_packet codec packet n) _ (
              OnOk-imp _ _ (decode_packet codec packet n)
                (λ u n' kept.
                  OnOk-imp
                    (Splits codec (ensure_encoder codec n').1.encoder n'.pending_pcm position)
                    (Follows position) (emit_ready_frames codec n')
                    (λ frames n'' (few, total, kept, encoded, at, next). (at, next))
                    (emit_ready_frames-Splits codec n' position kept))
                (decode_packet-keeps packet n position known)))
      ]

  push_from-Follows :
      (next : Option ℕ) (packet : DemuxedPacket) (n : Normalizer codec)
      → OnOk (Follows (unwrap_or next packet.timestamp_samples)) (
          push_at codec packet
            (unwrap_or (or_position codec next packet.timestamp_samples) packet.timestamp_samples)
            (record n {
              next_output_position_samples = or_position codec next packet.timestamp_samples;
            }))
  push_from-Follows none packet n =
      push_at-Follows packet packet.timestamp_samples
        (record n { next_output_position_samples = some packet.timestamp_samples }) refl
  push_from-Follows (some position) packet n =
      push_at-Follows packet position (record n { next_output_position_samples = some position })
        refl

  push_packet-Follows :
      (packet : DemuxedPacket) (n : Normalizer codec)
      → OnOk
          (Follows (unwrap_or n.next_output_position_samples packet.timestamp_samples))
          (push_packet codec packet n)
  unfolding push_packet
  push_packet-Follows packet n = push_from-Follows n.next_output_position_samples packet n

  -- A packet after the other; the frames of all of them.
  abbrev pub push_packets : List DemuxedPacket → Normalizer codec → Step codec (List OpusFrame)
  push_packets [] n = (ok [], n)
  push_packets (packet ∷ packets) n =
      and_then (push_packet codec packet n)
        (λ frames n'. and_then (push_packets packets n') (λ rest n''. (ok (frames ++ rest), n'')))

  push_packets-from :
      (packets : List DemuxedPacket) (n : Normalizer codec) (position : ℕ)
      → n.next_output_position_samples ≡ some position
      → OnOk (Follows position) (push_packets packets n)
  push_packets-from [] n position known = (tt, known)
  push_packets-from (packet ∷ packets) n position known =
      and_then-OnOk (Follows position) (push_packet codec packet n) _ (
        OnOk-imp (Follows position) _ (push_packet codec packet n)
          (λ frames n' (at, next). and_then-OnOk (Follows position) (push_packets packets n') _ (
            OnOk-imp (Follows (end_position position frames)) _ (push_packets packets n')
              (λ rest n'' (later, last). (
                AtPositions-append position frames rest at later,
                last ∙ ap some (end_position-append position frames rest),
              ))
              (push_packets-from packets n' (end_position position frames) next)))
          (subst
            (λ o.
              OnOk (Follows (unwrap_or o packet.timestamp_samples)) (push_packet codec packet n))
            known (push_packet-Follows packet n)))

  -- However the codec decodes and encodes, as long as it does not fail: the frames that come out of any
  -- packets are of 960 samples, one after the other without a gap, from the position of the first
  -- packet on, whether they were passed through or encoded again.
  pub push_packets-Follows :
      (packet : DemuxedPacket) (packets : List DemuxedPacket)
      → OnOk
          (Follows packet.timestamp_samples)
          (push_packets (packet ∷ packets) (new_normalizer codec))
  unfolding new_normalizer
  push_packets-Follows packet packets =
      and_then-OnOk (Follows packet.timestamp_samples)
        (push_packet codec packet (new_normalizer codec)) _
        (OnOk-imp (Follows packet.timestamp_samples) _
          (push_packet codec packet (new_normalizer codec))
          (λ frames n' (at, next).
            and_then-OnOk (Follows packet.timestamp_samples) (push_packets packets n') _ (
              OnOk-imp (Follows (end_position packet.timestamp_samples frames)) _
                (push_packets packets n')
                (λ rest n'' (later, last). (
                  AtPositions-append packet.timestamp_samples frames rest at later,
                  last ∙ ap some (end_position-append packet.timestamp_samples frames rest),
                ))
                (push_packets-from packets n' (end_position packet.timestamp_samples frames) next)))
          (push_packet-Follows packet (new_normalizer codec)))
