-- ===== src/Playback/Normalizer/Examples.antt =====
-- The normalizer at concrete inputs, with a codec whose values are numbers.
use discord_voice_service.Common.{ℕ, refl, some, [], ◌∷◌, ok, replicate}
use discord_voice_service.Playback.Position.{DemuxedPacket}
use discord_voice_service.Playback.Normalizer.{
  Codec, DiscordOpusFrameNormalizer, ensure_encoder, emit_ready_frames, new_normalizer,
}
use discord_voice_service.Playback.Normalizer.Frames.{OnOk, Splits, emit_ready_frames-Splits}
use discord_voice_service.Playback.Normalizer.Following.{
  Follows, push_packets, push_packets-Follows,
}

abbrev quiet : Codec ℕ ℕ ℕ
quiet = record {
  new_decoder = λ channels. ok channels;
  decode = λ decoder packet frame_samples buffer. (ok (frame_samples, buffer), decoder);
  new_encoder = ok 0;
  encode = λ encoder pcm samples. (ok (0xfc ∷ []), encoder);
  zero_value = 0;
  unexpected_count = λ count expected. "decoded opus packet returned other samples";
}

abbrev half_full : DiscordOpusFrameNormalizer ℕ ℕ ℕ
half_full = record (new_normalizer quiet) {
  pending_pcm = replicate 2_000 0;
  next_output_position_samples = some 48_000;
}

emit_ready_frames-Splits_example :
    OnOk
      (Splits quiet (ensure_encoder quiet half_full).1.encoder half_full.pending_pcm 48_000)
      (emit_ready_frames quiet half_full)
emit_ready_frames-Splits_example = emit_ready_frames-Splits quiet half_full 48_000 refl

abbrev packet : DemuxedPacket
packet = record {
  packet_data = 0xfc ∷ 1 ∷ [];
  timestamp_ms = 1_000;
  timestamp_samples = 48_000;
  duration_ms = 20;
  duration_samples = 960;
}

push_packets-Follows_example :
    OnOk (Follows quiet 48_000) (push_packets quiet (packet ∷ packet ∷ []) (new_normalizer quiet))
push_packets-Follows_example = push_packets-Follows quiet packet (packet ∷ [])
