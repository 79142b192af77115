-- ===== src/Playback/Normalizer/Total.antt =====
-- opus_normalizer.rs: where the codec does not panic, the normalizer does not.
use discord_voice_service.Common.{
  ℕ, zero, suc, ◌&&◌, ◌||◌, ◌==◌, inl, inr, Option, none, some, List, leb, length, String, Result,
  ok, err, panic, NoPanic, and_then-NoPanic, Bool-cases,
}
use discord_voice_service.Common.Maybe.{unwrap_or}
use discord_voice_service.Common.Bytes.{Bytes}
use discord_voice_service.Playback.Position.{DemuxedPacket}
use discord_voice_service.Playback.Normalizer.{
  Codec, Normalizer, created_encoder, ensure_encoder, emitted, encode_with, emit_loop,
  emit_ready_frames, is_none, is_empty_list, flush, get_decoder, created_decoder, present_decoder,
  decoder_for_channels, decoded, decode_channels, decode_packet, or_position, push_at, push_packet,
  opus_packet_channels, is_discord_passthrough_packet,
}

-- The calls of the codec come back.
pub record IsTotal {Pcm Decoder Encoder : Type 0} (codec : Codec Pcm Decoder Encoder) : Type 0 where
  pub new_decoder : (channels : ℕ) → NoPanic (codec.new_decoder channels)
  pub decode :
      (decoder : Decoder) (packet : Bytes) (samples : ℕ) (pcm : List Pcm)
      → NoPanic (codec.decode decoder packet samples pcm).0
  pub new_encoder : NoPanic codec.new_encoder
  pub encode :
      (encoder : Encoder) (pcm : List Pcm) (samples : ℕ)
      → NoPanic (codec.encode encoder pcm samples).0

module _ {Pcm Decoder Encoder : Type 0} (codec : Codec Pcm Decoder Encoder)
    (total : IsTotal codec) where
  ensure_encoder-NoPanic : (n : Normalizer codec) → NoPanic (ensure_encoder codec n).0
  unfolding ensure_encoder
  ensure_encoder-NoPanic n = elim (Bool-cases (is_none n.encoder)) [
    | inl missing ↦ rw missing (created codec.new_encoder total.new_encoder)
    | inr there ↦ rw there tt
  ]
    where
      created :
          (encoder : Result String Encoder)
          → NoPanic encoder
          → NoPanic (created_encoder codec encoder n).0
      created (ok encoder) h = tt
      created (err detail) h = tt
      created panic h = h

  emit_loop-NoPanic : (fuel : ℕ) (n : Normalizer codec) → NoPanic (emit_loop codec fuel n).0
  unfolding emit_loop
  emit_loop-NoPanic zero n = tt
  emit_loop-NoPanic (suc fuel) n = elim (Bool-cases (leb 1_920 (length n.pending_pcm))) [
    | inl full ↦ rw full (encoding (emit_loop-NoPanic fuel) n.encoder)
    | inr few ↦ rw few tt
  ]
    where
      emitting :
          ((n : Normalizer codec) → NoPanic (emit_loop codec fuel n).0)
          → (step : Result String Bytes × Encoder) → NoPanic step.0
          → NoPanic (emitted codec n step (emit_loop codec fuel)).0
      emitting ih (err detail, encoder) h = tt
      emitting ih (panic, encoder) h = h
      emitting ih (ok packet, encoder) h = and_then-NoPanic _ _ (ih _) (λ frames n'. tt)

      encoding :
          ((n : Normalizer codec) → NoPanic (emit_loop codec fuel n).0)
          → (encoder : Option Encoder)
          → NoPanic (encode_with codec n encoder (emit_loop codec fuel)).0
      encoding ih none = tt
      encoding ih (some encoder) = emitting ih _ (total.encode encoder _ _)

  emit_ready_frames-NoPanic : (n : Normalizer codec) → NoPanic (emit_ready_frames codec n).0
  unfolding emit_ready_frames
  emit_ready_frames-NoPanic n =
      and_then-NoPanic (ensure_encoder codec n) _ (ensure_encoder-NoPanic n)
        (λ u n'. emit_loop-NoPanic _ n')

  pub flush-NoPanic : (n : Normalizer codec) → NoPanic (flush codec n).0
  unfolding flush
  flush-NoPanic n = elim (Bool-cases (is_empty_list n.pending_pcm)) [
    | inl nothing ↦ rw nothing tt
    | inr rest ↦ rw rest (emit_ready_frames-NoPanic _)
  ]

  decoder_for_channels-NoPanic :
      (channels : ℕ) (n : Normalizer codec) → NoPanic (decoder_for_channels codec channels n).0
  unfolding decoder_for_channels
  decoder_for_channels-NoPanic channels n = elim (Bool-cases ((channels == 1) || (channels == 2))) [
    | inl layout ↦ rw layout (present (get_decoder codec channels n))
    | inr other ↦ rw other tt
  ]
    where
      created :
          (decoder : Result String Decoder)
          → NoPanic decoder
          → NoPanic (created_decoder codec channels decoder n).0
      created (ok decoder) h = tt
      created (err detail) h = tt
      created panic h = h

      present : (decoder : Option Decoder) → NoPanic (present_decoder codec channels decoder n).0
      present (some decoder) = tt
      present none = created (codec.new_decoder channels) (total.new_decoder channels)

  decoded-NoPanic :
      (channels samples : ℕ) (n : Normalizer codec)
      (result : Result String (ℕ × List Pcm) × Decoder)
      → NoPanic result.0
      → NoPanic (decoded codec channels samples n result).0
  decoded-NoPanic channels samples n (err detail, decoder) h = tt
  decoded-NoPanic channels samples n (panic, decoder) h = h
  decoded-NoPanic channels samples n (ok (count, pcm), decoder) h =
      elim (Bool-cases (count == samples)) [
        | inr other ↦ rw other tt
        | inl all ↦ rw all (elim (Bool-cases (channels == 1)) [
          | inl mono ↦ rw mono tt
          | inr stereo ↦ rw stereo tt
        ])
      ]

  decode_packet-NoPanic :
      (packet : DemuxedPacket) (n : Normalizer codec) → NoPanic (decode_packet codec packet n).0
  unfolding decode_packet
  decode_packet-NoPanic packet n = by_channels (opus_packet_channels packet.packet_data)
    where
      by_channels : (channels : Option ℕ) → NoPanic (decode_channels codec channels packet n).0
      by_channels none = tt
      by_channels (some channels) = elim (Bool-cases (packet.duration_samples == 0)) [
        | inl nothing ↦ rw nothing tt
        | inr some_samples ↦ rw some_samples (
            and_then-NoPanic _ _ (decoder_for_channels-NoPanic channels _) (λ decoder n'.
              decoded-NoPanic channels packet.duration_samples n' _
                (total.decode decoder packet.packet_data packet.duration_samples _)))
      ]

  pub push_packet-NoPanic :
      (packet : DemuxedPacket) (n : Normalizer codec) → NoPanic (push_packet codec packet n).0
  unfolding push_packet
  push_packet-NoPanic packet n =
      pushed
        (unwrap_or (or_position codec n.next_output_position_samples packet.timestamp_samples)
          packet.timestamp_samples)
        _
    where
      pushed : (position : ℕ) (n : Normalizer codec) → NoPanic (push_at codec packet position n).0
      pushed position n =
          elim (Bool-cases (is_empty_list n.pending_pcm && is_discord_passthrough_packet packet)) [
            | inl through ↦ rw through tt
            | inr decoding ↦ rw decoding (
                and_then-NoPanic _ _ (decode_packet-NoPanic packet n)
                  (λ u n'. emit_ready_frames-NoPanic n'))
          ]
