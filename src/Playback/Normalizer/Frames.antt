-- ===== src/Playback/Normalizer/Frames.antt =====
-- opus_normalizer.rs: what the loop makes frames of, and at which positions.
use discord_voice_service.Common.{
  ℕ, zero, suc, ◌+◌, ◌*◌, ◌≤◌, ◌<◌, ◌≡◌, inl, inr, refl, sym, ap, subst, ◌∙◌, Option, none, some,
  List, [], ◌∷◌, leb, leb→le, leb_false→lt, length, length-drop, take, drop, String, Result, ok,
  err, panic, and_then, Bool-cases, arith,
}
use discord_voice_service.Common.Words.{saturating_add}
use discord_voice_service.Common.Bytes.{Bytes}
use discord_voice_service.Playback.Error.{PlaybackError}
use discord_voice_service.Playback.OpusFrame.{OpusFrame, with_duration_samples, with_exact_metadata}
use discord_voice_service.Playback.Normalizer.{
  Codec, DiscordOpusFrameNormalizer, Normalizer, emit_loop, emitted, encode_with, emit_ready_frames,
  ensure_encoder, frame_at,
}

-- What holds of a step that succeeds.
abbrev pub OnOk :
    {Pcm Decoder Encoder A : Type 0}
    → (A → DiscordOpusFrameNormalizer Pcm Decoder Encoder → Type 0)
    → Result PlaybackError A × DiscordOpusFrameNormalizer Pcm Decoder Encoder
    → Type 0
OnOk P (ok a, n) = P a n
OnOk P (err e, n) = Unit
OnOk P (panic, n) = Unit

pub and_then-OnOk :
    {Pcm Decoder Encoder A B : Type 0}
    (P : B → DiscordOpusFrameNormalizer Pcm Decoder Encoder → Type 0)
    (first : Result PlaybackError A × DiscordOpusFrameNormalizer Pcm Decoder Encoder)
    (rest : A
      → DiscordOpusFrameNormalizer Pcm Decoder Encoder
      → Result PlaybackError B × DiscordOpusFrameNormalizer Pcm Decoder Encoder)
    → OnOk (λ a n. OnOk P (rest a n)) first
    → OnOk P (and_then first rest)
and_then-OnOk P (ok a, n) rest h = h
and_then-OnOk P (err e, n) rest h = tt
and_then-OnOk P (panic, n) rest h = tt

pub OnOk-imp :
    {Pcm Decoder Encoder A : Type 0}
    (P Q : A → DiscordOpusFrameNormalizer Pcm Decoder Encoder → Type 0)
    (step : Result PlaybackError A × DiscordOpusFrameNormalizer Pcm Decoder Encoder)
    → ((a : A) (n : DiscordOpusFrameNormalizer Pcm Decoder Encoder) → P a n → Q a n)
    → OnOk P step
    → OnOk Q step
OnOk-imp P Q (ok a, n) imp h = imp a n h
OnOk-imp P Q (err e, n) imp h = tt
OnOk-imp P Q (panic, n) imp h = tt

-- The frames are of 960 samples each, one after the other from a position on.
abbrev pub AtPositions : ℕ → List OpusFrame → Type 0
AtPositions position [] = Unit
AtPositions position (f ∷ fs) =
    (f.source_position_samples ≡ position)
    × (f.duration_samples ≡ 960)
    × AtPositions (saturating_add position 960) fs

-- The position after them.
abbrev pub end_position : ℕ → List OpusFrame → ℕ
end_position position [] = position
end_position position (f ∷ fs) = end_position (saturating_add position 960) fs

suc_add : (a b : ℕ) → suc (a + b) ≡ suc a + b
suc_add a b = omega arith

drop-none : {A : Type 0} (k : ℕ) → drop {A = A} k [] ≡ []
drop-none zero = refl
drop-none (suc k) = refl

drop-add : {A : Type 0} (a b : ℕ) (xs : List A) → drop b (drop a xs) ≡ drop (a + b) xs
drop-add zero b xs = ap (λ k. drop k xs) (omega arith)
drop-add (suc a) b [] = drop-none b ∙ sym (drop-none (suc a + b))
drop-add (suc a) b (x ∷ xs) = drop-add a b xs ∙ ap (λ k. drop k (x ∷ xs)) (suc_add a b)

module _ {Pcm Decoder Encoder : Type 0} (codec : Codec Pcm Decoder Encoder) where
  -- The frames are what an encoder makes of the values, 1,920 for each frame, one after the other.
  abbrev pub Encoded : Option Encoder → List Pcm → List OpusFrame → Type 0
  Encoded encoder pcm [] = Unit
  Encoded none pcm (f ∷ fs) = ⊥
  Encoded (some encoder) pcm (f ∷ fs) =
      (next : Encoder) × (codec.encode encoder (take 1_920 pcm) 960 ≡ (ok f.payload, next))
      × Encoded (some next) (drop 1_920 pcm) fs

  -- What a run of the loop has taken and leaves.
  abbrev pub Splits : Option Encoder → List Pcm → ℕ → List OpusFrame → Normalizer codec → Type 0
  Splits encoder pcm position frames n =
      (length n.pending_pcm < 1_920)
      × (length frames * 1_920 + length n.pending_pcm ≡ length pcm)
      × (n.pending_pcm ≡ drop (length frames * 1_920) pcm)
      × Encoded encoder pcm frames
      × AtPositions position frames
      × (n.next_output_position_samples ≡ some (end_position position frames))

  -- What is shown of the loop with that fuel.
  abbrev LoopSplits : ℕ → Type 0
  LoopSplits fuel =
      (pcm : List Pcm) (position : ℕ) (n : Normalizer codec)
      → length pcm < fuel
      → OnOk (Splits n.encoder pcm position) (
          emit_loop codec fuel
            (record n { pending_pcm = pcm; next_output_position_samples = some position }))

  emitted-Splits :
      (fuel : ℕ) (pcm : List Pcm) (position : ℕ) (n : Normalizer codec) (used : Encoder)
      (result : Result String Bytes) (encoder : Encoder)
      → codec.encode used (take 1_920 pcm) 960 ≡ (result, encoder)
      → LoopSplits fuel
      → length pcm < suc fuel
      → 1_920 ≤ length pcm
      → OnOk (Splits (some used) pcm position) (
          emitted codec
            (record n { pending_pcm = pcm; next_output_position_samples = some position })
            (result, encoder)
            (emit_loop codec fuel))
  unfolding frame_at with_exact_metadata with_duration_samples
  emitted-Splits fuel pcm position n used (err detail) encoder e ih enough full = tt
  emitted-Splits fuel pcm position n used panic encoder e ih enough full = tt
  emitted-Splits fuel pcm position n used (ok packet) encoder e ih enough full =
      and_then-OnOk (Splits (some used) pcm position)
        (emit_loop codec fuel (record n {
          encoder = some encoder;
          pending_pcm = drop 1_920 pcm;
          next_output_position_samples = some (saturating_add position 960);
        }))
        (λ frames n'. (ok (frame_at packet position ∷ frames), n'))
        (OnOk-imp (Splits (some encoder) (drop 1_920 pcm) (saturating_add position 960)) _ _
          (λ frames n' (few, total, kept, encoded, at, next). (
            few,
            omega (arith, total, length-drop 1_920 pcm, full),
            kept ∙ drop-add 1_920 (length frames * 1_920) pcm ∙ ap (λ k. drop k pcm) (omega arith),
            (encoder, e, encoded),
            (refl, refl, at),
            next,
          ))
          (ih (drop 1_920 pcm) (saturating_add position 960) (record n { encoder = some encoder })
            (omega (arith, length-drop 1_920 pcm, full, enough))))

  encode_with-Splits :
      (fuel : ℕ) (pcm : List Pcm) (position : ℕ) (n : Normalizer codec) (encoder : Option Encoder)
      → LoopSplits fuel
      → length pcm < suc fuel
      → 1_920 ≤ length pcm
      → OnOk (Splits encoder pcm position) (
          encode_with codec
            (record n { pending_pcm = pcm; next_output_position_samples = some position })
            encoder
            (emit_loop codec fuel))
  encode_with-Splits fuel pcm position n none ih enough full = tt
  encode_with-Splits fuel pcm position n (some encoder) ih enough full =
      emitted-Splits fuel pcm position n encoder _ _ refl ih enough full

  emit_loop-Splits : (fuel : ℕ) → LoopSplits fuel
  unfolding emit_loop
  emit_loop-Splits zero pcm position n enough = absurd (omega arith)
  emit_loop-Splits (suc fuel) pcm position n enough = elim (Bool-cases (leb 1_920 (length pcm))) [
    | inl full ↦ rw full (
        encode_with-Splits fuel pcm position n n.encoder (emit_loop-Splits fuel) enough
          (leb→le 1_920 (length pcm) full))
    | inr few ↦
        rw few (omega (arith, leb_false→lt 1_920 (length pcm) few), omega arith, refl, tt, tt, refl)
  ]

  ensure_encoder-keeps :
      (n : Normalizer codec)
      → OnOk
          (λ u n'.
            (n'.pending_pcm ≡ n.pending_pcm)
            × (n'.next_output_position_samples ≡ n.next_output_position_samples)
            × (n'.encoder ≡ (ensure_encoder codec n).1.encoder))
          (ensure_encoder codec n)
  unfolding ensure_encoder
  ensure_encoder-keeps n = ground arith

  -- Where the codec does not fail, emitting ends, on the fuel that it has, when less than a frame of 1,920
  -- values is left; each frame is what the encoder makes of the next 1,920 of the values, and the values
  -- after those of the frames are left, so that none is lost or used twice; and the frames are of 960
  -- samples, one after the other from the position of the first on.
  pub emit_ready_frames-Splits :
      (n : Normalizer codec) (position : ℕ)
      → n.next_output_position_samples ≡ some position
      → OnOk
          (Splits (ensure_encoder codec n).1.encoder n.pending_pcm position)
          (emit_ready_frames codec n)
  unfolding emit_ready_frames
  emit_ready_frames-Splits n position known =
      and_then-OnOk (Splits (ensure_encoder codec n).1.encoder n.pending_pcm position)
        (ensure_encoder codec n) _
        (OnOk-imp _ _ (ensure_encoder codec n)
          (λ u n' (same_pcm, same_position, same_encoder).
            subst
              (λ encoder.
                OnOk (Splits encoder n.pending_pcm position)
                  (emit_loop codec (suc (length n'.pending_pcm)) n'))
              same_encoder
              (subst
                (λ pcm.
                  OnOk (Splits n'.encoder pcm position)
                    (emit_loop codec (suc (length n'.pending_pcm)) n'))
                same_pcm
                (subst
                  (λ o. OnOk (Splits n'.encoder n'.pending_pcm position) (
                    emit_loop codec (suc (length n'.pending_pcm))
                      (record n' { next_output_position_samples = o })))
                  (sym (same_position ∙ known))
                  (emit_loop-Splits (suc (length n'.pending_pcm)) n'.pending_pcm position n'
                    (omega arith)))))
          (ensure_encoder-keeps n))
