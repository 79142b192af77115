-- ===== src/Voice/Receive/Attribution.antt =====
-- receive.rs: the user that a received frame is given out for.
use discord_voice_service.Common.{
  ℕ, ◌≡◌, inl, inr, refl, sym, ap, subst, ◌∙◌, Bool, true, false, ◌==◌, not, String, Option, none,
  some, List, eq_refl, Result, ok, err, panic, arith, Bool-cases,
}
use discord_voice_service.Common.Bytes.{Bytes}
use discord_voice_service.Voice.Error.{is_packet_unprotect_failure}
use discord_voice_service.Voice.Rtp.{RtpHeader, parse_rtp_header}
use discord_voice_service.Voice.Crypto.{EncryptionMode}
use discord_voice_service.Voice.Protection.{Aead}
use discord_voice_service.Voice.Receive.{
  ObservedAudioFrame, ObservedVoiceSession, DecodeAudioPacketError, not_ready, fatal, Received,
  decoded, from_mapped, known_speaker, infer_or_buffer, after_attempt, unknown_speaker,
  decode_audio_packet, process_audio_packet, infer_single_remote_speaker, is_other, is_rtcp_packet,
  map_get, map_insert, map_remove, record_speaker_ssrc, has_some,
}

-- A frame that comes out is of the SSRC of the packet, for the user that this SSRC is then mapped to,
-- who is the expected one if one is expected.
abbrev pub Attributed : Option String → RtpHeader → Received → Type 0
Attributed expected header (ok (some frame), s) =
    (map_get header.ssrc s.speaker_ssrcs ≡ some frame.user_id)
    × (is_other expected frame.user_id ≡ false)
    × (frame.ssrc ≡ header.ssrc)
    × (frame.sequence ≡ header.sequence)
    × (frame.timestamp ≡ header.timestamp)
Attributed expected header _ = Unit

abbrev pub IsOf : String → RtpHeader → ObservedAudioFrame → Type 0
IsOf user_id header frame =
    (frame.user_id ≡ user_id)
    × (frame.ssrc ≡ header.ssrc)
    × (frame.sequence ≡ header.sequence)
    × (frame.timestamp ≡ header.timestamp)

map_get-insert {ℓ} :
    {A : Type ℓ} (key : ℕ) (a : A) (m : List (ℕ × A)) → map_get key (map_insert key a m) ≡ some a
map_get-insert key a m = let same : (key == key) ≡ true = ground arith in rw same refl

module _ (ciphers : EncryptionMode → Aead) where
  pub decode_audio_packet-IsOf :
      (s : ObservedVoiceSession) (packet : Bytes) (header : RtpHeader) (received_at : ℕ)
      (user_id : String) (frame : ObservedAudioFrame)
      → decode_audio_packet ciphers s packet header received_at user_id ≡ ok frame
      → IsOf user_id header frame
  unfolding decode_audio_packet
  decode_audio_packet-IsOf s packet header received_at user_id frame h = ground arith

  decoded-Attributed :
      (expected : Option String) (header : RtpHeader) (packet : Bytes) (received_at : ℕ)
      (s : ObservedVoiceSession) (user_id : String)
      (result : Result DecodeAudioPacketError ObservedAudioFrame)
      → map_get header.ssrc s.speaker_ssrcs ≡ some user_id
      → is_other expected user_id ≡ false
      → ((frame : ObservedAudioFrame) → result ≡ ok frame → IsOf user_id header frame)
      → Attributed expected header (decoded ciphers header packet received_at s result)
  decoded-Attributed expected header packet received_at s user_id (ok frame) mapped wanted h =
      let (same, ssrc, sequence, timestamp) = h frame refl in
      (
        mapped ∙ ap some (sym same),
        subst (λ u. is_other expected u ≡ false) (sym same) wanted,
        ssrc,
        sequence,
        timestamp,
      )
  decoded-Attributed expected header packet received_at s user_id (err not_ready) mapped wanted h =
      tt
  decoded-Attributed expected header packet received_at s user_id (err (fatal e)) mapped wanted h =
      tt
  decoded-Attributed expected header packet received_at s user_id panic mapped wanted h = tt

  from_mapped-Attributed :
      (expected : Option String) (header : RtpHeader) (packet : Bytes) (received_at : ℕ)
      (s : ObservedVoiceSession) (user : Option String)
      → map_get header.ssrc s.speaker_ssrcs ≡ user
      → Attributed expected header (from_mapped ciphers expected header packet received_at s user)
  from_mapped-Attributed expected header packet received_at s none mapped = tt
  from_mapped-Attributed expected header packet received_at s (some user_id) mapped =
      elim (Bool-cases (is_other expected user_id)) [
        | inl other ↦ rw other tt
        | inr wanted ↦ rw wanted (
            decoded-Attributed expected header packet received_at s user_id
              (decode_audio_packet ciphers s packet header received_at user_id) mapped wanted
              (decode_audio_packet-IsOf s packet header received_at user_id))
      ]

  known_speaker-Attributed :
      (expected : Option String) (header : RtpHeader) (packet : Bytes) (received_at : ℕ)
      (s : ObservedVoiceSession)
      → Attributed expected header (known_speaker ciphers expected header packet received_at s)
  known_speaker-Attributed expected header packet received_at s =
      from_mapped-Attributed expected header packet received_at
        (record s { pending_packets = map_remove header.ssrc s.pending_packets })
        (map_get header.ssrc s.speaker_ssrcs) refl

  infer_or_buffer-Attributed :
      (expected : Option String) (header : RtpHeader) (packet : Bytes) (received_at : ℕ)
      (s : ObservedVoiceSession) (user : Option String)
      → Attributed expected header
          (infer_or_buffer ciphers expected header packet received_at s user)
  infer_or_buffer-Attributed expected header packet received_at s none = tt
  infer_or_buffer-Attributed expected header packet received_at s (some user_id) =
      known_speaker-Attributed expected header packet received_at
        (record_speaker_ssrc user_id header.ssrc s)

  after_attempt-Attributed :
      (expected : String) (header : RtpHeader) (packet : Bytes) (received_at : ℕ)
      (s : ObservedVoiceSession) (result : Result DecodeAudioPacketError ObservedAudioFrame)
      → ((frame : ObservedAudioFrame) → result ≡ ok frame → IsOf expected header frame)
      → Attributed
          (some expected)
          header
          (after_attempt ciphers expected header packet received_at s result)
  unfolding record_speaker_ssrc
  after_attempt-Attributed expected header packet received_at s (ok frame) h =
      let (same, ssrc, sequence, timestamp) = h frame refl in
      (
        map_get-insert header.ssrc expected s.speaker_ssrcs ∙ ap some (sym same),
        subst (λ u. is_other (some expected) u ≡ false) (sym same) (ap not (eq_refl expected)),
        ssrc,
        sequence,
        timestamp,
      )
  after_attempt-Attributed expected header packet received_at s (err not_ready) h =
      infer_or_buffer-Attributed (some expected) header packet received_at s
        (infer_single_remote_speaker (some expected) s)
  after_attempt-Attributed expected header packet received_at s (err (fatal e)) h =
      elim (Bool-cases (is_packet_unprotect_failure e)) [
        | inl is ↦ rw is tt
        | inr is_not ↦ rw is_not tt
      ]
  after_attempt-Attributed expected header packet received_at s panic h = tt

  unknown_speaker-Attributed :
      (expected : Option String) (encrypted : Bool) (header : RtpHeader) (packet : Bytes)
      (received_at : ℕ) (s : ObservedVoiceSession)
      → Attributed expected header
          (unknown_speaker ciphers expected encrypted header packet received_at s)
  unknown_speaker-Attributed (some expected) true header packet received_at s =
      after_attempt-Attributed expected header packet received_at s _
        (decode_audio_packet-IsOf s packet header received_at expected)
  unknown_speaker-Attributed none encrypted header packet received_at s =
      infer_or_buffer-Attributed none header packet received_at s _
  unknown_speaker-Attributed (some expected) false header packet received_at s =
      infer_or_buffer-Attributed (some expected) header packet received_at s _

  -- If a received packet whose header can be read gives a frame, the frame has the SSRC, the sequence
  -- number and the timestamp of that header, and is given out for the user that the SSRC is mapped to
  -- afterwards, who is the expected user if one is expected.
  pub process_audio_packet-Attributed :
      (packet : Bytes) (received_at : ℕ) (expected : Option String) (s : ObservedVoiceSession)
      (header : RtpHeader)
      → parse_rtp_header packet ≡ ok header
      → Attributed expected header (process_audio_packet ciphers packet received_at expected s)
  unfolding process_audio_packet
  process_audio_packet-Attributed packet received_at expected s header parsed =
      elim (Bool-cases (is_rtcp_packet packet)) [
        | inl rtcp ↦ rw rtcp tt
        | inr rtp ↦
            rw (rtp, parsed)
              (elim (Bool-cases (has_some (map_get header.ssrc s.speaker_ssrcs))) [
                | inl known ↦
                    rw known (known_speaker-Attributed expected header packet received_at s)
                | inr unknown ↦ rw unknown (
                    unknown_speaker-Attributed expected (has_some s.dave) header packet received_at
                      s)
              ])
      ]
