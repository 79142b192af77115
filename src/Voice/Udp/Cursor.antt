-- ===== src/Voice/Udp/Cursor.antt =====
-- udp.rs: the RTP cursor in one atomic word, and what a send does to it.
use discord_voice_service.Common.{
  ◌^◌, ◌<◌, ◌≡◌, ◌≢◌, Bool, [], ◌∷◌, ◌++◌, ok, err, arith, ◌⊎◌, if◌then◌else◌,
}
use discord_voice_service.Common.Words.{IsU16, IsU32, wrapping_add16, wrapping_add32}
use discord_voice_service.Voice.Error.{invalid_state, io}
use discord_voice_service.Voice.Rtp.{RtpSequenceState}
use discord_voice_service.Voice.Udp.{
  PreparedVoicePacket, VoicePreparedPacketSender, pack_rtp_cursor_parts, pack_rtp_cursor,
  unpack_rtp_cursor, is_next_send, commit_send, send_prepared_packet,
}

pub record InRange (s : RtpSequenceState) : Type 0 where
  pub sequence_fits : IsU16 s.sequence
  pub timestamp_fits : IsU32 s.timestamp

-- Packing loses nothing: the cursor word fits 64 bits and unpacks to the state it was packed from.
pub unpack-pack_rtp_cursor :
    (s : RtpSequenceState)
    → InRange s
    → (pack_rtp_cursor s < 2 ^ 64) × (unpack_rtp_cursor (pack_rtp_cursor s) ≡ s)
unfolding pack_rtp_cursor unpack_rtp_cursor
unpack-pack_rtp_cursor s r = ground arith

-- The state after a packet.
abbrev pub next_state : PreparedVoicePacket → RtpSequenceState
next_state p = record {
  sequence = wrapping_add16 p.rtp_sequence 1;
  timestamp = wrapping_add32 p.rtp_timestamp p.duration_samples;
}

abbrev pub IsAt : VoicePreparedPacketSender → RtpSequenceState → Type 0
IsAt s at = s.send_sequence ≡ pack_rtp_cursor at

-- The packet at the cursor goes out once and moves the cursor past it; if the socket fails, nothing
-- is sent and the cursor stays.
pub send_prepared_packet_next :
    (socket_ok : Bool) (s : VoicePreparedPacketSender) (p : PreparedVoicePacket)
    (at : RtpSequenceState)
    → InRange at
    → IsAt s at
    → p.rtp_sequence ≡ at.sequence
    → p.rtp_timestamp ≡ at.timestamp
    → send_prepared_packet socket_ok s p ≡ (
        if socket_ok
        then (
          ok tt,
          record {
            send_sequence = pack_rtp_cursor (next_state p);
            sent = s.sent ++ (p.bytes ∷ []);
          },
        )
        else (err io, s))
unfolding send_prepared_packet is_next_send commit_send pack_rtp_cursor
send_prepared_packet_next socket_ok s p at r e es et = ground (arith, unpack-pack_rtp_cursor at r)

-- Any packet that is not the one at the cursor is refused, with nothing sent and the cursor kept.
pub send_prepared_packet_other :
    (socket_ok : Bool) (s : VoicePreparedPacketSender) (p : PreparedVoicePacket)
    (at : RtpSequenceState)
    → InRange at
    → IsAt s at
    → (p.rtp_sequence ≢ at.sequence) ⊎ (p.rtp_timestamp ≢ at.timestamp)
    → send_prepared_packet socket_ok s p
      ≡ (err (invalid_state "voice prepared packet rtp cursor is not next send"), s)
unfolding send_prepared_packet is_next_send pack_rtp_cursor
send_prepared_packet_other socket_ok s p at r e other = ground (arith, unpack-pack_rtp_cursor at r)

-- Two clones that both passed the check with one packet: whichever commits second is refused, and
-- the cursor has moved past the packet only once.
pub commit_send_twice :
    (s : VoicePreparedPacketSender) (p : PreparedVoicePacket)
    → IsU16 p.rtp_sequence
    → IsU32 p.rtp_timestamp
    → (commit_send s p).0 ≡ ok tt
    → commit_send (commit_send s p).1 p ≡ (
      err (invalid_state "voice prepared packet send cursor advanced concurrently"),
      (commit_send s p).1,
    )
unfolding commit_send pack_rtp_cursor_parts
commit_send_twice s p hs ht e = ground arith
