-- ===== src/Voice/Udp/Pipeline.antt =====
-- udp.rs: what is prepared in a row can be sent in a row.
use discord_voice_service.Common.{
  ℕ, ◌≤◌, ◌<◌, ◌≡◌, refl, ◌∙◌, Bool, true, false, Option, some, none, List, [], ◌∷◌, ◌++◌, map,
  append_assoc, ◌==◌, and_then, length, length-append, drop, length-drop, index_lem, ◌-◌,
  append-nil, Result, ok, arith, Yields, Yields-bind,
}
use discord_voice_service.Common.Bytes.{Bytes}
use discord_voice_service.Voice.Error.{VoiceError}
use discord_voice_service.Voice.Crypto.{EncryptionMode}
use discord_voice_service.Voice.Protection.{Aead, protect_packet, encrypted, ProtectionContext}
use discord_voice_service.Voice.Rtp.{RtpSequenceState, advance_by_samples, build_header}
use discord_voice_service.Voice.Udp.{
  PreparedVoicePacket, VoicePacketPreparer, VoicePreparedPacketSender, VoiceUdpTransport,
  pack_rtp_cursor, prepare_audio_packet, send_prepared_packet, is_some, seal,
  protection_nonce_from_packet, discard_unsent_prepared_packets,
}
use discord_voice_service.Voice.Udp.Cursor.{
  InRange, IsAt, next_state, send_prepared_packet_next, unpack-pack_rtp_cursor,
}

-- Packets that follow one another from a state on.
abbrev pub InOrder : RtpSequenceState → List PreparedVoicePacket → Type 0
InOrder at [] = Unit {0}
InOrder at (p ∷ ps) =
    (p.rtp_sequence ≡ at.sequence) × (p.rtp_timestamp ≡ at.timestamp) × InOrder (next_state p) ps

abbrev pub state_after : RtpSequenceState → List PreparedVoicePacket → RtpSequenceState
state_after at [] = at
state_after at (p ∷ ps) = state_after (next_state p) ps

-- Sends one after another until one fails.
pub send_all :
    VoicePreparedPacketSender
    → List PreparedVoicePacket
    → Result VoiceError (Unit {0}) × VoicePreparedPacketSender
send_all s [] = (ok tt, s)
send_all s (p ∷ ps) = and_then (send_prepared_packet true s p) (λ _ s'. send_all s' ps)

next_state-InRange : (p : PreparedVoicePacket) → InRange (next_state p)
next_state-InRange p = omega arith

-- Packets in order from the cursor on all go out, byte for byte and in their order, on a socket
-- that does not fail; the cursor ends behind the last.
pub send_all-InOrder :
    (s : VoicePreparedPacketSender) (ps : List PreparedVoicePacket) (at : RtpSequenceState)
    → InRange at
    → IsAt s at
    → InOrder at ps
    → send_all s ps ≡ (
      ok tt,
      record {
        send_sequence = pack_rtp_cursor (state_after at ps);
        sent = s.sent ++ map (λ (p : PreparedVoicePacket). p.bytes) ps;
      },
    )
unfolding send_all
send_all-InOrder s [] at r e o = ground (arith, append-nil s.sent)
send_all-InOrder s (p ∷ ps) at r e (es, et, o) =
    rw (send_prepared_packet_next true s p at r e es et) (
      send_all-InOrder
        (record { send_sequence = pack_rtp_cursor (next_state p); sent = s.sent ++ (p.bytes ∷ []) })
        ps (next_state p) (next_state-InRange p) refl o
      ∙ rw (append_assoc s.sent (p.bytes ∷ []) (map (λ (p : PreparedVoicePacket). p.bytes) ps)))

-- What a prepared packet carries: the cursor that was reserved, and its duration.
pub record Carries (at : RtpSequenceState) (ms samples : ℕ) (p : PreparedVoicePacket) : Type 0 where
  pub sequence : p.rtp_sequence ≡ at.sequence
  pub timestamp : p.rtp_timestamp ≡ at.timestamp
  pub duration_ms : p.duration_ms ≡ ms
  pub duration_samples : p.duration_samples ≡ samples

module _ (ciphers : EncryptionMode → Aead) where
  seal-Yields :
      (c : Option ProtectionContext) (header frame : Bytes)
      → 12 ≤ length header
      → Yields (λ _. Unit {0}) (λ packet. 12 ≤ length packet) (seal ciphers c header frame).0
  unfolding seal protect_packet encrypted
  seal-Yields none header frame h = omega (arith, length-append header frame)
  seal-Yields (some c) header frame h = grind (arith, length-append)

  protection_nonce-Yields :
      (packet : Bytes) (protected : Bool)
      → 4 ≤ length packet
      → Yields (λ _. Unit {0}) (λ _. Unit {0}) (protection_nonce_from_packet packet protected)
  unfolding protection_nonce_from_packet
  protection_nonce-Yields packet false h = tt
  protection_nonce-Yields packet true h =
      let suffix = drop (length packet - 4) packet in
      let size : length suffix ≡ 4 = omega (arith, length-drop (length packet - 4) packet) in
      rw
        (
          index_lem suffix 0 0 (omega arith),
          index_lem suffix 1 0 (omega arith),
          index_lem suffix 2 0 (omega arith),
          index_lem suffix 3 0 (omega arith),
        )
        tt

  -- Preparing a packet of some duration never panics; the packet, if there is one, carries the
  -- reserved cursor, and the reservation moves on by the duration even where protecting fails.
  pub prepare_audio_packet_lem :
      (p : VoicePacketPreparer) (frame : Bytes) (ms samples : ℕ)
      → 0 < samples
      → ((prepare_audio_packet ciphers p frame ms samples).1.reserved_sequence
          ≡ (advance_by_samples p.reserved_sequence samples).1)
        × Yields
            (λ _. Unit {0})
            (Carries p.reserved_sequence ms samples)
            (prepare_audio_packet ciphers p frame ms samples).0
  unfolding prepare_audio_packet advance_by_samples build_header
  prepare_audio_packet_lem p frame ms samples h =
      let some_samples : (samples == 0) ≡ false = ground arith in
      rw some_samples (
        refl,
        Yields-bind (λ _. Unit {0}) (λ packet. 12 ≤ length packet) carries _ _
            (seal-Yields p.protection _ frame (omega arith))
            (λ packet _ long.
              Yields-bind (λ _. Unit {0}) (λ _. Unit {0}) carries _ _
                (protection_nonce-Yields packet (is_some p.protection) (omega arith))
                (λ nonce _ _. record {
                  sequence = refl;
                  timestamp = refl;
                  duration_ms = refl;
                  duration_samples = refl;
                })),
      )
    where
      carries : PreparedVoicePacket → Type 0
      carries = Carries p.reserved_sequence ms samples

-- After unsent packets are dropped, the reservation is the cursor of the sender again.
pub discard_unsent_prepared_packets_lem :
    (t : VoiceUdpTransport) (at : RtpSequenceState)
    → InRange at
    → IsAt t.sender at
    → (discard_unsent_prepared_packets t).preparer.reserved_sequence ≡ at
unfolding discard_unsent_prepared_packets
discard_unsent_prepared_packets_lem t at r e = rw e (unpack-pack_rtp_cursor at r).1
