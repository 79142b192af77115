-- ===== src/Playback/Normalizer.antt =====
-- crates/discord-voice-service-playback/src/media/opus_normalizer.rs: packets of any duration become
-- stereo frames of 960 samples per channel. The Opus codec is a third-party crate, an interface here.
pub mod Frames
pub mod Following
pub mod Total
pub mod Examples
use discord_voice_service.Common.{
  ℕ, zero, suc, ◌+◌, ◌-◌, ◌*◌, Bool, true, false, not, ◌&&◌, ◌||◌, Option, none, some, List, [],
  ◌∷◌, ◌++◌, leb, ◌==◌, if◌then◌else◌, length, take, drop, replicate, bit_and, String, Result, ok,
  err, panic, and_then,
}
use discord_voice_service.Common.Maybe.{option_map, unwrap_or}
use discord_voice_service.Common.Words.{saturating_add, saturating_mul}
use discord_voice_service.Common.Bytes.{Bytes}
use discord_voice_service.Playback.Error.{
  PlaybackError, media_parse, media_parse_detail, invalid_state,
}
use discord_voice_service.Playback.OpusFrame.{
  OpusFrame, with_duration_samples, with_exact_metadata, duration_ms_from_samples,
}
use discord_voice_service.Playback.Position.{DemuxedPacket}

-- Samples per channel, milliseconds and channels of a frame.
abbrev pub discord_frame_samples : ℕ
discord_frame_samples = 960

abbrev pub discord_frame_ms : ℕ
discord_frame_ms = 20

abbrev pub discord_channels : ℕ
discord_channels = 2

-- The crate's decoder and encoder, with the text that the code makes of an error. `decode` is given the
-- packet and the samples per channel; it returns how many it has decoded and what the buffer holds,
-- which has as many values as it was made with.
pub record Codec (Pcm Decoder Encoder : Type 0) : Type 0 where
  pub new_decoder : ℕ → Result String Decoder
  pub decode : Decoder → Bytes → ℕ → List Pcm → Result String (ℕ × List Pcm) × Decoder
  pub new_encoder : Result String Encoder
  pub encode : Encoder → List Pcm → ℕ → Result String Bytes × Encoder
  pub zero_value : Pcm
  -- `decoded opus packet returned … samples; expected …`
  pub unexpected_count : ℕ → ℕ → String

pub record DiscordOpusFrameNormalizer (Pcm Decoder Encoder : Type 0) : Type 0 where
  pub mono_decoder : Option Decoder
  pub stereo_decoder : Option Decoder
  pub encoder : Option Encoder
  pub pending_pcm : List Pcm
  pub next_output_position_samples : Option ℕ

unfoldable pub opus_packet_channels : Bytes → Option ℕ
opus_packet_channels [] = none
opus_packet_channels (toc ∷ rest) = some (if not (bit_and toc 0x04 == 0) then 2 else 1)

abbrev is_two : Option ℕ → Bool
is_two none = false
is_two (some channels) = channels == discord_channels

unfoldable pub is_discord_passthrough_packet : DemuxedPacket → Bool
unfolding opus_packet_channels
is_discord_passthrough_packet packet =
    (packet.duration_samples == discord_frame_samples)
    && is_two (opus_packet_channels packet.packet_data)

-- A frame of 960 samples at a position.
unfoldable pub frame_at : Bytes → ℕ → OpusFrame
frame_at payload source_position_samples =
    with_exact_metadata (with_duration_samples payload discord_frame_ms discord_frame_samples)
      (duration_ms_from_samples source_position_samples) source_position_samples none 0

abbrev pub is_none {ℓ} : {A : Type ℓ} → Option A → Bool
is_none none = true
is_none (some a) = false

abbrev pub is_empty_list {ℓ} : {A : Type ℓ} → List A → Bool
is_empty_list [] = true
is_empty_list (x ∷ xs) = false

-- Each value of a mono channel stands twice.
unfoldable pub doubled {ℓ} : {A : Type ℓ} → List A → List A
doubled [] = []
doubled (x ∷ xs) = x ∷ x ∷ doubled xs

module _ {Pcm Decoder Encoder : Type 0} (codec : Codec Pcm Decoder Encoder) where
  abbrev pub Normalizer : Type 0
  Normalizer = DiscordOpusFrameNormalizer Pcm Decoder Encoder

  abbrev pub Step : Type 0 → Type 0
  Step A = Result PlaybackError A × Normalizer

  unfoldable pub new_normalizer : Normalizer
  new_normalizer = record {
    mono_decoder = none;
    stereo_decoder = none;
    encoder = none;
    pending_pcm = [];
    next_output_position_samples = none;
  }

  abbrev pub created_encoder : Result String Encoder → Normalizer → Step (Unit {0})
  created_encoder (ok encoder) n = (ok tt, record n { encoder = some encoder })
  created_encoder (err detail) n = (err (media_parse_detail detail), n)
  created_encoder panic n = (panic, n)

  unfoldable pub ensure_encoder : Normalizer → Step (Unit {0})
  ensure_encoder n = if is_none n.encoder then created_encoder codec.new_encoder n else (ok tt, n)

  frame_values : ℕ
  frame_values = saturating_mul discord_frame_samples discord_channels

  -- After a frame is encoded.
  abbrev pub emitted :
      Normalizer
      → Result String Bytes × Encoder
      → (Normalizer → Step (List OpusFrame))
      → Step (List OpusFrame)
  emitted n (err detail, encoder) rest =
      (err (media_parse_detail detail), record n { encoder = some encoder })
  emitted n (panic, encoder) rest = (panic, record n { encoder = some encoder })
  emitted n (ok packet, encoder) rest =
      let position = unwrap_or n.next_output_position_samples 0 in
      and_then
        (rest (record n {
          encoder = some encoder;
          next_output_position_samples = some (saturating_add position discord_frame_samples);
          pending_pcm = drop 1_920 n.pending_pcm;
        }))
        (λ frames n'. (ok (frame_at packet position ∷ frames), n'))

  abbrev pub encode_with :
      Normalizer → Option Encoder → (Normalizer → Step (List OpusFrame)) → Step (List OpusFrame)
  encode_with n none rest = (err (invalid_state "opus normalizer encoder missing"), n)
  encode_with n (some encoder) rest =
      emitted n (codec.encode encoder (take 1_920 n.pending_pcm) discord_frame_samples) rest

  -- The loop of `emit_ready_frames`, on fuel; 1,920 values are a frame.
  unfoldable pub emit_loop : ℕ → Normalizer → Step (List OpusFrame)
  emit_loop zero n = (ok [], n)
  emit_loop (suc fuel) n =
      let rest = emit_loop fuel in
      if leb 1_920 (length n.pending_pcm) then encode_with n n.encoder rest else (ok [], n)

  unfoldable pub emit_ready_frames : Normalizer → Step (List OpusFrame)
  emit_ready_frames n =
      and_then (ensure_encoder n) (λ u n'. emit_loop (suc (length n'.pending_pcm)) n')

  -- `resize(frame_values, 0.0)`
  unfoldable pub flush : Normalizer → Step (List OpusFrame)
  flush n =
      if is_empty_list n.pending_pcm
      then (ok [], n)
      else emit_ready_frames (record n {
        pending_pcm =
            take 1_920 n.pending_pcm ++ replicate (1_920 - length n.pending_pcm) codec.zero_value;
      })

  abbrev set_decoder : ℕ → Decoder → Normalizer → Normalizer
  set_decoder channels decoder n =
      if channels == 1
      then record n { mono_decoder = some decoder }
      else record n { stereo_decoder = some decoder }

  abbrev pub get_decoder : ℕ → Normalizer → Option Decoder
  get_decoder channels n = if channels == 1 then n.mono_decoder else n.stereo_decoder

  abbrev pub created_decoder : ℕ → Result String Decoder → Normalizer → Step Decoder
  created_decoder channels (ok decoder) n = (ok decoder, set_decoder channels decoder n)
  created_decoder channels (err detail) n = (err (media_parse_detail detail), n)
  created_decoder channels panic n = (panic, n)

  abbrev pub present_decoder : ℕ → Option Decoder → Normalizer → Step Decoder
  present_decoder channels (some decoder) n = (ok decoder, n)
  present_decoder channels none n = created_decoder channels (codec.new_decoder channels) n

  unfoldable pub decoder_for_channels : ℕ → Normalizer → Step Decoder
  decoder_for_channels channels n =
      if (channels == 1) || (channels == 2)
      then present_decoder channels (get_decoder channels n) n
      else (err (media_parse "unsupported opus channel layout"), n)

  abbrev pub decoded : ℕ → ℕ → Normalizer → Result String (ℕ × List Pcm) × Decoder → Step (Unit {0})
  decoded channels frame_samples n (err detail, decoder) =
      (err (media_parse_detail detail), set_decoder channels decoder n)
  decoded channels frame_samples n (panic, decoder) = (panic, set_decoder channels decoder n)
  decoded channels frame_samples n (ok (count, pcm), decoder) =
      let n = set_decoder channels decoder n in
      if not (count == frame_samples)
      then (err (media_parse_detail (codec.unexpected_count count frame_samples)), n)
      else if channels == 1
      then (ok tt, record n { pending_pcm = n.pending_pcm ++ doubled pcm })
      else (ok tt, record n { pending_pcm = n.pending_pcm ++ pcm })

  abbrev pub or_position : Option ℕ → ℕ → Option ℕ
  or_position none position = some position
  or_position (some p) position = some p

  abbrev pub decode_channels : Option ℕ → DemuxedPacket → Normalizer → Step (Unit {0})
  decode_channels none packet n = (err (media_parse "unsupported opus channel layout"), n)
  decode_channels (some channels) packet n =
      if packet.duration_samples == 0
      then (err (media_parse "opus packet duration is zero"), n)
      else and_then
          (decoder_for_channels channels (record n {
            next_output_position_samples =
                or_position n.next_output_position_samples packet.timestamp_samples;
          }))
          (λ decoder n'. decoded channels packet.duration_samples n' (
            codec.decode decoder packet.packet_data packet.duration_samples
              (replicate (saturating_mul packet.duration_samples channels) codec.zero_value)))

  unfoldable pub decode_packet : DemuxedPacket → Normalizer → Step (Unit {0})
  decode_packet packet n = decode_channels (opus_packet_channels packet.packet_data) packet n

  -- `push_packet` with the position of the next frame.
  abbrev pub push_at : DemuxedPacket → ℕ → Normalizer → Step (List OpusFrame)
  push_at packet position n =
      if is_empty_list n.pending_pcm && is_discord_passthrough_packet packet
      then (
        ok (frame_at packet.packet_data position ∷ []),
        record n {
          next_output_position_samples = some (saturating_add position packet.duration_samples);
        },
      )
      else and_then (decode_packet packet n) (λ u n'. emit_ready_frames n')

  unfoldable pub push_packet : DemuxedPacket → Normalizer → Step (List OpusFrame)
  push_packet packet n =
      let next = or_position n.next_output_position_samples packet.timestamp_samples in
      push_at packet (unwrap_or next packet.timestamp_samples)
        (record n { next_output_position_samples = next })
