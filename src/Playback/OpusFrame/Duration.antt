-- ===== src/Playback/OpusFrame/Duration.antt =====
-- opus_queue.rs: packet durations against the table of RFC 6716, and the unit conversions.
use discord_voice_service.Common.{
  ℕ, ◌+◌, ◌*◌, ◌/◌, ◌%◌, ◌^◌, ◌≤◌, ◌<◌, ◌≡◌, refl, Option, none, some, List, [], ◌∷◌, ◌==◌,
  if◌then◌else◌, get_or, get_elem?, leb, leb→le, bit_and, ==_iff, arith,
}
use discord_voice_service.Common.Maybe.{◌>>=◌, option_map}
use discord_voice_service.Common.Masks.{passes_on_first, passes_on_first_lem}
use discord_voice_service.Common.Bytes.{Bytes, AreBytes}
use discord_voice_service.Playback.OpusFrame.{
  OpusPacketDuration, samples_per_frame, frame_count, duration_of_frames, opus_packet_duration,
  samples_from_duration_ms_u64, duration_ms_from_samples,
}

-- RFC 6716, table 2: samples at 48 kHz in a frame of each of the 32 configurations.
abbrev pub config_samples : List ℕ
config_samples =
    480 ∷ 960 ∷ 1920 ∷ 2880 ∷ 480 ∷ 960 ∷ 1920 ∷ 2880 ∷ 480 ∷ 960 ∷ 1920 ∷ 2880 ∷ 480 ∷ 960 ∷ 480
    ∷ 960 ∷ 120 ∷ 240 ∷ 480 ∷ 960 ∷ 120 ∷ 240 ∷ 480 ∷ 960 ∷ 120 ∷ 240 ∷ 480 ∷ 960 ∷ 120 ∷ 240 ∷ 480
    ∷ 960 ∷ []

-- RFC 6716, section 3.2: the frames of a packet by its code, and by its second byte for code 3.
abbrev code_frames : ℕ → Bytes → Option ℕ
code_frames code rest =
    if code == 0
    then some 1
    else if code == 3
    then option_map (λ b. b % 64) (get_elem? rest 0)
    else some 2

abbrev pub rfc_duration : Bytes → Option OpusPacketDuration
rfc_duration [] = none
rfc_duration (toc ∷ rest) =
    option_map
      (λ n.
        let samples = get_or config_samples (toc / 8) 0 * n in
        record { ms = samples / 48; samples = samples })
      (code_frames (toc % 4) rest)

samples_per_frame-table :
    (toc : ℕ) → toc < 256 → samples_per_frame toc ≡ get_or config_samples (toc / 8) 0
unfolding samples_per_frame passes_on_first
samples_per_frame-table toc h = (==_iff _ _).0 (
    passes_on_first_lem (λ t. samples_per_frame t == get_or config_samples (t / 8) 0) 256 toc h
      refl)

samples_per_frame-le : (toc : ℕ) → toc < 256 → samples_per_frame toc ≤ 2880
unfolding samples_per_frame passes_on_first
samples_per_frame-le toc h =
    leb→le _ _ (passes_on_first_lem (λ t. leb (samples_per_frame t) 2880) 256 toc h refl)

low_two_bits : (b : ℕ) → b < 256 → bit_and b 0x03 ≡ b % 4
unfolding passes_on_first
low_two_bits b h = (==_iff _ _).0 (passes_on_first_lem (λ t. bit_and t 0x03 == t % 4) 256 b h refl)

low_six_bits : (b : ℕ) → b < 256 → bit_and b 0x3f ≡ b % 64
unfolding passes_on_first
low_six_bits b h = (==_iff _ _).0 (passes_on_first_lem (λ t. bit_and t 0x3f == t % 64) 256 b h refl)

frame_count-code :
    (toc : ℕ) (rest : Bytes)
    → AreBytes (toc ∷ rest)
    → frame_count (toc ∷ rest) toc ≡ code_frames (toc % 4) rest
unfolding frame_count
frame_count-code toc [] h = ground (arith, low_two_bits toc)
frame_count-code toc (b ∷ rest) h = ground (arith, low_two_bits toc, low_six_bits b)

code_frames-le : (toc : ℕ) (rest : Bytes) (n : ℕ) → code_frames (toc % 4) rest ≡ some n → n ≤ 63
code_frames-le toc [] n e = ground arith
code_frames-le toc (b ∷ rest) n e = ground arith

-- Neither the multiplication nor the conversion to `u32` can fail: a packet has at most 63 frames
-- of at most 2880 samples.
duration_of_frames-fits :
    (per_frame n : ℕ)
    → per_frame ≤ 2880
    → n ≤ 63
    → duration_of_frames per_frame n
      ≡ some (record { ms = per_frame * n / 48; samples = per_frame * n })
unfolding duration_of_frames duration_ms_from_samples
duration_of_frames-fits p n hp hn = let bound : p * n ≤ 2880 * 63 = grind arith in ground arith

-- On any bytes the duration of a packet is the one that RFC 6716 gives it, and is missing exactly
-- for the empty packet and for a code 3 packet with no second byte.
pub opus_packet_duration-rfc :
    (packet : Bytes) → AreBytes packet → opus_packet_duration packet ≡ rfc_duration packet
unfolding opus_packet_duration
opus_packet_duration-rfc [] h = refl
opus_packet_duration-rfc (toc ∷ rest) h =
    rw (frame_count-code toc rest h, ← samples_per_frame-table toc h.0)
      (go (code_frames (toc % 4) rest) (code_frames-le toc rest))
  where
    go :
        (o : Option ℕ)
        → ((n : ℕ) → o ≡ some n → n ≤ 63)
        → (o >>= duration_of_frames (samples_per_frame toc))
          ≡ option_map
              (λ n.
                let samples = samples_per_frame toc * n in
                record { ms = samples / 48; samples = samples })
              o
    go none k = refl
    go (some n) k = duration_of_frames-fits _ n (samples_per_frame-le toc h.0) (k n refl)

-- Samples to milliseconds and back loses less than a millisecond; milliseconds to samples and back
-- loses nothing. Both hold for durations that do not saturate.
pub samples_round_trip :
    (ms samples : ℕ)
    → ms * 48_000 < 2 ^ 64
    → samples * 1_000 < 2 ^ 64
    → (duration_ms_from_samples (samples_from_duration_ms_u64 ms) ≡ ms)
      × (samples_from_duration_ms_u64 (duration_ms_from_samples samples) ≤ samples)
      × (samples < samples_from_duration_ms_u64 (duration_ms_from_samples samples) + 48)
unfolding duration_ms_from_samples samples_from_duration_ms_u64
samples_round_trip ms samples h k = omega arith
