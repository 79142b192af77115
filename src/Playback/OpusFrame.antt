-- ===== src/Playback/OpusFrame.antt =====
-- crates/discord-voice-service-playback/src/media/opus_queue.rs, first part: Opus frames, the
-- conversions between samples and milliseconds, and the duration of a packet by its first bytes.
pub mod Duration
use discord_voice_service.Common.{
  ℕ, ◌+◌, ◌*◌, ◌/◌, ◌^◌, Bool, not, Option, none, some, List, [], ◌∷◌, ltb, ◌==◌, if◌then◌else◌,
  length, get_elem?, bit_and,
}
use discord_voice_service.Common.Maybe.{◌>>=◌, option_map}
use discord_voice_service.Common.Words.{u32_max, u64_max, saturating_mul, try_into}
use discord_voice_service.Common.Bytes.{Bytes}

abbrev pub opus_sample_rate_hz : ℕ
opus_sample_rate_hz = 48_000

pub record OpusPacketDuration : Type 0 where
  pub ms : ℕ
  pub samples : ℕ

pub record OpusFrame : Type 0 where
  pub payload : Bytes
  pub duration_ms : ℕ
  pub duration_samples : ℕ
  pub source_position_ms : ℕ
  pub source_position_samples : ℕ
  pub source_byte_position : Option ℕ
  pub epoch : ℕ

unfoldable pub samples_from_duration_ms_u64 : ℕ → ℕ
samples_from_duration_ms_u64 duration_ms = saturating_mul duration_ms (opus_sample_rate_hz / 1_000)

unfoldable pub samples_from_duration_ms : ℕ → ℕ
unfolding samples_from_duration_ms_u64
samples_from_duration_ms duration_ms =
    let samples = samples_from_duration_ms_u64 duration_ms in
    if ltb samples (2 ^ 32) then samples else u32_max

unfoldable pub duration_ms_from_samples : ℕ → ℕ
duration_ms_from_samples duration_samples =
    saturating_mul duration_samples 1_000 / opus_sample_rate_hz

-- `duration_from_samples`: a `Duration`, in nanoseconds.
unfoldable pub duration_from_samples : ℕ → ℕ
duration_from_samples duration_samples =
    saturating_mul duration_samples 1_000_000_000 / opus_sample_rate_hz

-- `OpusFrame::new`
unfoldable pub new_frame : Bytes → ℕ → OpusFrame
unfolding samples_from_duration_ms
new_frame payload duration_ms = record {
  payload = payload;
  duration_ms = duration_ms;
  duration_samples = samples_from_duration_ms duration_ms;
  source_position_ms = 0;
  source_position_samples = 0;
  source_byte_position = none;
  epoch = 0;
}

unfoldable pub with_duration_samples : Bytes → ℕ → ℕ → OpusFrame
with_duration_samples payload duration_ms duration_samples = record {
  payload = payload;
  duration_ms = duration_ms;
  duration_samples = duration_samples;
  source_position_ms = 0;
  source_position_samples = 0;
  source_byte_position = none;
  epoch = 0;
}

unfoldable pub with_metadata : OpusFrame → ℕ → Option ℕ → ℕ → OpusFrame
unfolding samples_from_duration_ms_u64
with_metadata f source_position_ms source_byte_position epoch = record f {
  source_position_ms = source_position_ms;
  source_position_samples = samples_from_duration_ms_u64 source_position_ms;
  source_byte_position = source_byte_position;
  epoch = epoch;
}

unfoldable pub with_exact_metadata : OpusFrame → ℕ → ℕ → Option ℕ → ℕ → OpusFrame
with_exact_metadata f position_ms position_samples byte_position epoch = record f {
  source_position_ms = position_ms;
  source_position_samples = position_samples;
  source_byte_position = byte_position;
  epoch = epoch;
}

unfoldable pub with_epoch : OpusFrame → ℕ → OpusFrame
with_epoch f epoch = record f { epoch = epoch }

abbrev pub byte_len : OpusFrame → ℕ
byte_len f = length f.payload

-- The samples in one frame of a packet, by its first byte: the configuration is in the upper bits.
unfoldable pub samples_per_frame : ℕ → ℕ
samples_per_frame toc =
    if not (bit_and toc 0x80 == 0)
    then (48_000 * 2 ^ bit_and (toc / 2 ^ 3) 0x03 / 400)
    else if bit_and toc 0x60 == 0x60
    then (if not (bit_and toc 0x08 == 0) then 48_000 / 50 else 48_000 / 100)
    else if bit_and (toc / 2 ^ 3) 0x03 == 3
    then (48_000 * 60 / 1_000)
    else (48_000 * 2 ^ bit_and (toc / 2 ^ 3) 0x03 / 100)

-- How many frames the packet holds, by the lower two bits of its first byte.
unfoldable pub frame_count : Bytes → ℕ → Option ℕ
frame_count packet toc =
    if bit_and toc 0x03 == 0
    then some 1
    else if bit_and toc 0x03 == 1
    then some 2
    else if bit_and toc 0x03 == 2
    then some 2
    else if bit_and toc 0x03 == 3
    then option_map (λ b. bit_and b 0x3f) (get_elem? packet 1)
    else none

-- `samples_per_frame.checked_mul(frames)?.try_into().ok()?`
unfoldable pub duration_of_frames : ℕ → ℕ → Option OpusPacketDuration
unfolding duration_ms_from_samples
duration_of_frames per_frame frames =
    if ltb u64_max (per_frame * frames)
    then none
    else option_map (λ samples. record { ms = duration_ms_from_samples samples; samples = samples })
        (try_into 32 (per_frame * frames))

unfoldable pub opus_packet_duration : Bytes → Option OpusPacketDuration
opus_packet_duration packet = do
  toc ← get_elem? packet 0
  frames ← frame_count packet toc
  duration_of_frames (samples_per_frame toc) frames
