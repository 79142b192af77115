-- ===== src/Voice/Receive/Waiting.antt =====
-- receive.rs: where `process_audio_packet` puts the packets that wait.
use discord_voice_service.Common.{
  ℕ, ◌≡◌, inl, inr, Bool, true, false, String, Option, none, some, Result, ok, err, panic, arith,
  Bool-cases,
}
use discord_voice_service.Common.Bytes.{Bytes}
use discord_voice_service.Voice.Error.{VoiceError, is_packet_unprotect_failure}
use discord_voice_service.Voice.Rtp.{RtpHeader, parse_rtp_header}
use discord_voice_service.Voice.Crypto.{EncryptionMode}
use discord_voice_service.Voice.Protection.{Aead}
use discord_voice_service.Voice.Receive.{
  ObservedAudioFrame, ObservedVoiceSession, DecodeAudioPacketError, not_ready, fatal, Received,
  buffered, decoded, from_mapped, known_speaker, infer_or_buffer, after_attempt, unknown_speaker,
  by_header, process_audio_packet, infer_single_remote_speaker, is_other, is_rtcp_packet, map_get,
  map_remove, record_speaker_ssrc, has_some,
}
use discord_voice_service.Voice.Receive.Pending.{are_keyed, are_keyed-remove}

abbrev IsKeyed : Received → Type 0
IsKeyed (result, s) = are_keyed s.pending_packets ≡ true

module _ (ciphers : EncryptionMode → Aead) (header : RtpHeader) (packet : Bytes)
    (received_at : ℕ) where
  buffered-IsKeyed :
      (s : ObservedVoiceSession)
      → are_keyed s.pending_packets ≡ true
      → IsKeyed (buffered header packet received_at s)
  buffered-IsKeyed s h = ground (arith, are_keyed-remove header.ssrc s.pending_packets)

  decoded-IsKeyed :
      (s : ObservedVoiceSession) (result : Result DecodeAudioPacketError ObservedAudioFrame)
      → are_keyed s.pending_packets ≡ true
      → IsKeyed (decoded ciphers header packet received_at s result)
  decoded-IsKeyed s (ok frame) h = h
  decoded-IsKeyed s (err not_ready) h = buffered-IsKeyed s h
  decoded-IsKeyed s (err (fatal e)) h = h
  decoded-IsKeyed s panic h = h

  from_mapped-IsKeyed :
      (expected : Option String) (s : ObservedVoiceSession) (user : Option String)
      → are_keyed s.pending_packets ≡ true
      → IsKeyed (from_mapped ciphers expected header packet received_at s user)
  from_mapped-IsKeyed expected s none h = h
  from_mapped-IsKeyed expected s (some user_id) h = elim (Bool-cases (is_other expected user_id)) [
    | inl other ↦ rw other h
    | inr wanted ↦ rw wanted (decoded-IsKeyed s _ h)
  ]

  known_speaker-IsKeyed :
      (expected : Option String) (s : ObservedVoiceSession)
      → are_keyed s.pending_packets ≡ true
      → IsKeyed (known_speaker ciphers expected header packet received_at s)
  known_speaker-IsKeyed expected s h =
      from_mapped-IsKeyed expected
        (record s { pending_packets = map_remove header.ssrc s.pending_packets })
        (map_get header.ssrc s.speaker_ssrcs) (are_keyed-remove header.ssrc s.pending_packets h)

  infer_or_buffer-IsKeyed :
      (expected : Option String) (s : ObservedVoiceSession) (user : Option String)
      → are_keyed s.pending_packets ≡ true
      → IsKeyed (infer_or_buffer ciphers expected header packet received_at s user)
  unfolding record_speaker_ssrc
  infer_or_buffer-IsKeyed expected s none h = buffered-IsKeyed s h
  infer_or_buffer-IsKeyed expected s (some user_id) h =
      known_speaker-IsKeyed expected (record_speaker_ssrc user_id header.ssrc s) h

  after_attempt-IsKeyed :
      (expected : String) (s : ObservedVoiceSession)
      (result : Result DecodeAudioPacketError ObservedAudioFrame)
      → are_keyed s.pending_packets ≡ true
      → IsKeyed (after_attempt ciphers expected header packet received_at s result)
  unfolding record_speaker_ssrc
  after_attempt-IsKeyed expected s (ok frame) h = h
  after_attempt-IsKeyed expected s (err not_ready) h =
      infer_or_buffer-IsKeyed (some expected) s (infer_single_remote_speaker (some expected) s) h
  after_attempt-IsKeyed expected s (err (fatal e)) h =
      elim (Bool-cases (is_packet_unprotect_failure e)) [
        | inl is ↦ rw is h
        | inr is_not ↦ rw is_not h
      ]
  after_attempt-IsKeyed expected s panic h = h

  unknown_speaker-IsKeyed :
      (expected : Option String) (encrypted : Bool) (s : ObservedVoiceSession)
      → are_keyed s.pending_packets ≡ true
      → IsKeyed (unknown_speaker ciphers expected encrypted header packet received_at s)
  unknown_speaker-IsKeyed (some expected) true s h = after_attempt-IsKeyed expected s _ h
  unknown_speaker-IsKeyed (some expected) false s h =
      infer_or_buffer-IsKeyed (some expected) s (infer_single_remote_speaker (some expected) s) h
  unknown_speaker-IsKeyed none encrypted s h =
      infer_or_buffer-IsKeyed none s (infer_single_remote_speaker none s) h

module _ (ciphers : EncryptionMode → Aead) where
  by_header-IsKeyed :
      (expected : Option String) (packet : Bytes) (received_at : ℕ) (s : ObservedVoiceSession)
      (header : Result VoiceError RtpHeader)
      → are_keyed s.pending_packets ≡ true
      → IsKeyed (by_header ciphers expected packet received_at s header)
  by_header-IsKeyed expected packet received_at s (ok header) h =
      elim (Bool-cases (has_some (map_get header.ssrc s.speaker_ssrcs))) [
        | inl known ↦
            rw known (known_speaker-IsKeyed ciphers header packet received_at expected s h)
        | inr unknown ↦ rw unknown (
            unknown_speaker-IsKeyed ciphers header packet received_at expected (has_some s.dave) s
              h)
      ]
  by_header-IsKeyed expected packet received_at s (err e) h = h
  by_header-IsKeyed expected packet received_at s panic h = h

  -- Where each packet that waits stands under the SSRC of its header, a received packet keeps that so in
  -- every outcome.
  process_audio_packet-IsKeyed :
      (packet : Bytes) (received_at : ℕ) (expected : Option String) (s : ObservedVoiceSession)
      → are_keyed s.pending_packets ≡ true
      → IsKeyed (process_audio_packet ciphers packet received_at expected s)
  unfolding process_audio_packet
  process_audio_packet-IsKeyed packet received_at expected s h =
      elim (Bool-cases (is_rtcp_packet packet)) [
        | inl rtcp ↦ rw rtcp h
        | inr rtp ↦
            rw rtp (by_header-IsKeyed expected packet received_at s (parse_rtp_header packet) h)
      ]
