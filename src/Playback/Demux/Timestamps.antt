-- ===== src/Playback/Demux/Timestamps.antt =====
-- webm_demux.rs: the timestamps of the packets of a block.
use discord_voice_service.Common.{
  ℕ, suc, ◌+◌, ◌-◌, ◌*◌, ◌%◌, ◌^◌, ◌≤◌, ◌<◌, ◌≡◌, refl, ap, Option, none, some, List, [], ◌∷◌, ltb,
  Result, ok, err, panic, ◌>>=◌, ok_or, Yields, Ensures, Bool-cases, inl, inr, arith,
}
use discord_voice_service.Common.Maybe.{◌>>=◌ as ◌>>=?◌, option_map}
use discord_voice_service.Common.Words.{saturating_add}
use discord_voice_service.Common.Bytes.{Bytes}
use discord_voice_service.Playback.Error.{PlaybackError, media_parse}
use discord_voice_service.Playback.OpusFrame.{
  OpusPacketDuration, opus_packet_duration, duration_ms_from_samples,
}
use discord_voice_service.Playback.Position.{DemuxedPacket}
use discord_voice_service.Playback.Demux.{
  ℤ, pos, negsuc, WebmDemuxState, scale_timestamp_to_samples, block_timestamp_samples,
  opus_frame_durations, packets_from, packets_of_durations, frames_to_packets,
}

-- The time in units of 10 ^ -9 samples, rounded by half a sample.
abbrev pub half_up : ℕ → ℕ → ℕ
half_up scale_ns ticks = ticks * scale_ns * 48_000 + 500_000_000

-- The scaled timestamp is the number of samples at 48 kHz next to the exact time, a half rounded up,
-- and it fails, with no panic, exactly where that number has more than 64 bits.
pub scale_timestamp_to_samples_lem :
    (s : WebmDemuxState) (ticks : ℕ)
    → Yields
        (λ e.
          (e ≡ media_parse "timestamp overflow")
          × (2 ^ 64 * 1_000_000_000 ≤ half_up s.timestamp_scale_ns ticks))
        (λ n.
          (n < 2 ^ 64)
          × (n * 1_000_000_000 ≤ half_up s.timestamp_scale_ns ticks)
          × (half_up s.timestamp_scale_ns ticks < n * 1_000_000_000 + 1_000_000_000))
        (scale_timestamp_to_samples s ticks)
unfolding scale_timestamp_to_samples
scale_timestamp_to_samples_lem s ticks = ground arith

-- Each packet begins where the one before it ends, lasts as its first bytes say, and tells its
-- timestamp in milliseconds too.
abbrev pub IsContiguous : ℕ → List DemuxedPacket → Type 0
IsContiguous from [] = Unit
IsContiguous from (p ∷ rest) =
    (p.timestamp_samples ≡ from)
    × (p.timestamp_ms ≡ duration_ms_from_samples from)
    × (opus_packet_duration p.packet_data
        ≡ some (record { ms = p.duration_ms; samples = p.duration_samples }))
    × IsContiguous (saturating_add from p.duration_samples) rest

abbrev pub payloads : List DemuxedPacket → List Bytes
payloads [] = []
payloads (p ∷ rest) = p.packet_data ∷ payloads rest

-- The duration of the first frame and those of the rest, from those of all.
durations_cons :
    (o : Option OpusPacketDuration) (r : Option (List OpusPacketDuration)) (d : OpusPacketDuration)
    (ds : List OpusPacketDuration)
    → (o >>=? λ d'. option_map (λ ds'. d' ∷ ds') r) ≡ some (d ∷ ds)
    → (o ≡ some d) × (r ≡ some ds)
durations_cons none r d ds e = cc
durations_cons (some d') none d ds e = cc
durations_cons (some d') (some ds') d ds e = (cc, cc)

durations_nonempty :
    (o : Option OpusPacketDuration) (r : Option (List OpusPacketDuration))
    → (o >>=? λ d'. option_map (λ ds'. d' ∷ ds') r) ≡ some []
    → ⊥
durations_nonempty none r e = cc
durations_nonempty (some d') none e = cc
durations_nonempty (some d') (some ds') e = cc

packets_from_lem :
    (from : ℕ) (frames : List Bytes) (durations : List OpusPacketDuration)
    → opus_frame_durations frames ≡ some durations
    → IsContiguous from (packets_from from frames durations)
      × (payloads (packets_from from frames durations) ≡ frames)
unfolding packets_from opus_frame_durations
packets_from_lem from [] durations e = (tt, refl)
packets_from_lem from (f ∷ frames) [] e =
    absurd (durations_nonempty (opus_packet_duration f) (opus_frame_durations frames) e)
packets_from_lem from (f ∷ frames) (d ∷ durations) e =
    let (first, rest) =
      durations_cons (opus_packet_duration f) (opus_frame_durations frames) d durations e in
    let (contiguous, same) =
      packets_from_lem (saturating_add from d.samples) frames durations rest in
    ((refl, refl, first, contiguous), ap (λ l. f ∷ l) same)

bind_ok_or {ℓ κ} :
    {A : Type ℓ} {B : Type κ} (P : B → Type 0) (o : Option A) (e : PlaybackError)
    (k : A → Result PlaybackError B)
    → ((a : A) → o ≡ some a → Ensures P (k a))
    → Ensures P (ok_or o e >>= k)
bind_ok_or P (some a) e k h = h a refl
bind_ok_or P none e k h = tt

bind-Yields {ℓ κ} :
    {A : Type ℓ} {B : Type κ} (Q : PlaybackError → Type 0) (R : A → Type 0) (P : B → Type 0)
    (m : Result PlaybackError A) (k : A → Result PlaybackError B)
    → Yields Q R m
    → ((a : A) → m ≡ ok a → Ensures P (k a))
    → Ensures P (m >>= k)
bind-Yields Q R P (ok a) k y h = h a refl
bind-Yields Q R P (err e) k y h = tt
bind-Yields Q R P panic k y h = y

-- What is said of the packets of one block.
abbrev pub AreOfBlock : WebmDemuxState → ℤ → List Bytes → List DemuxedPacket → Type 0
AreOfBlock s relative_timestamp [] packets = packets ≡ []
AreOfBlock s relative_timestamp (f ∷ frames) packets =
    (start : ℕ) × (block_timestamp_samples s relative_timestamp ≡ ok start)
    × IsContiguous start packets
    × (payloads packets ≡ f ∷ frames)

no_panic {ℓ} :
    {A : Type ℓ} (Q : PlaybackError → Type 0) (R : A → Type 0) (m : Result PlaybackError A)
    → Yields Q R m
    → Yields (λ e. Unit {0}) (λ a. Unit {0}) m
no_panic Q R (ok a) y = tt
no_panic Q R (err e) y = tt
no_panic Q R panic y = y

block_timestamp_samples-Yields :
    (s : WebmDemuxState) (relative : ℤ)
    → Yields (λ e. Unit {0}) (λ n. Unit {0}) (block_timestamp_samples s relative)
block_timestamp_samples-Yields s (pos n) =
    unfold block_timestamp_samples in
    no_panic _ _ _ (scale_timestamp_to_samples_lem s ((s.cluster_timestamp + n) % 2 ^ 64))
block_timestamp_samples-Yields s (negsuc n) =
    unfold block_timestamp_samples in
    elim (Bool-cases (ltb s.cluster_timestamp (suc n))) [
      | inl negative ↦ rw negative tt
      | inr enough ↦
          rw enough
            (no_panic _ _ _ (scale_timestamp_to_samples_lem s (s.cluster_timestamp - suc n)))
    ]

-- The packets of a block are its frames, all of them and in their order; the first is at the block's
-- timestamp, each begins where the one before it ends, and each lasts as its own first bytes say.
pub frames_to_packets-Ensures :
    (s : WebmDemuxState) (relative_timestamp : ℤ) (frames : List Bytes)
    → Ensures
        (AreOfBlock s relative_timestamp frames)
        (frames_to_packets s relative_timestamp frames)
unfolding frames_to_packets packets_of_durations
frames_to_packets-Ensures s relative_timestamp [] = refl
frames_to_packets-Ensures s relative_timestamp (f ∷ frames) =
    bind_ok_or _ (opus_frame_durations (f ∷ frames)) _ _ λ durations e.
      bind-Yields _ _ _ (block_timestamp_samples s relative_timestamp) _
        (block_timestamp_samples-Yields s relative_timestamp)
        λ start at.
          let (contiguous, same) = packets_from_lem start (f ∷ frames) durations e in
          (start, at, contiguous, same)
