-- ===== src/Voice/Udp.antt =====
-- crates/discord-voice-service-voice/src/udp.rs and speaking.rs: packets are prepared ahead of time
-- and sent in the order of their RTP cursor. The socket enters as the answer of each `send_to`
-- (`true` for `Ok`), and what it was given is kept in `sent`.
pub mod Cursor
pub mod Pipeline
use discord_voice_service.Common.{
  ℕ, zero, suc, ◌+◌, ◌-◌, ◌*◌, ◌/◌, ◌%◌, ◌^◌, Bool, true, false, not, ◌||◌, Option, none, some,
  List, [], ◌∷◌, ◌++◌, ltb, ◌==◌, if◌then◌else◌, length, drop, take, Result, ok, err, panic, ◌>>=◌,
  and_then, index,
}
use discord_voice_service.Common.Words.{wrapping_add16, wrapping_add32, saturating_mul}
use discord_voice_service.Common.Bytes.{Bytes, from_be32}
use discord_voice_service.Voice.Error.{VoiceError, invalid_state, io}
use discord_voice_service.Voice.Crypto.{EncryptionMode}
use discord_voice_service.Voice.Protection.{Aead, ProtectionContext, protect_packet}
use discord_voice_service.Voice.Rtp.{
  RtpPacketBuilder, build_header, RtpSequenceState, initial, from_parts, advance_by_samples,
}

pub record PreparedVoicePacket : Type 0 where
  pub bytes : Bytes
  pub duration_ms : ℕ
  pub duration_samples : ℕ
  pub is_track : Bool
  pub rtp_sequence : ℕ
  pub rtp_timestamp : ℕ
  pub protection_nonce : Option ℕ

pub record VoicePacketPreparer : Type 0 where
  pub packet_builder : RtpPacketBuilder
  pub reserved_sequence : RtpSequenceState
  pub protection : Option ProtectionContext

unfoldable pub new_preparer : ℕ → VoicePacketPreparer
new_preparer ssrc = record {
  packet_builder = record { ssrc = ssrc };
  reserved_sequence = initial;
  protection = none;
}

unfoldable pub pack_rtp_cursor_parts : ℕ → ℕ → ℕ
pack_rtp_cursor_parts sequence timestamp = timestamp * 2 ^ 16 + sequence

unfoldable pub pack_rtp_cursor : RtpSequenceState → ℕ
unfolding pack_rtp_cursor_parts
pack_rtp_cursor s = pack_rtp_cursor_parts s.sequence s.timestamp

unfoldable pub unpack_rtp_cursor : ℕ → RtpSequenceState
unpack_rtp_cursor cursor = from_parts (cursor % 2 ^ 16) (cursor / 2 ^ 16 % 2 ^ 32)

-- `packet.get(packet.len().saturating_sub(4)..)?` is always there.
unfoldable pub protection_nonce_from_packet : Bytes → Bool → Result VoiceError (Option ℕ)
protection_nonce_from_packet packet false = ok none
protection_nonce_from_packet packet true = do
  let nonce_suffix = drop (length packet - 4) packet
  a ← index nonce_suffix 0
  b ← index nonce_suffix 1
  c ← index nonce_suffix 2
  d ← index nonce_suffix 3
  ok (some (from_be32 a b c d))

abbrev pub is_some : Option ProtectionContext → Bool
is_some none = false
is_some (some c) = true

abbrev pub duration_ms_from_samples : ℕ → ℕ
duration_ms_from_samples duration_samples = saturating_mul duration_samples 1_000 / 48_000

module _ (ciphers : EncryptionMode → Aead) where
  -- The packet for a header, and the protection after it.
  unfoldable pub seal :
      Option ProtectionContext → Bytes → Bytes → Result VoiceError Bytes × Option ProtectionContext
  seal none rtp_header frame = (ok (rtp_header ++ frame), none)
  seal (some c) rtp_header frame =
      let (packet, c') = protect_packet ciphers c rtp_header frame in (packet, some c')

  unfoldable pub prepare_audio_packet :
      VoicePacketPreparer
      → Bytes
      → ℕ
      → ℕ
      → Result VoiceError PreparedVoicePacket × VoicePacketPreparer
  prepare_audio_packet p frame duration_ms duration_samples =
      if duration_samples == 0
      then (err (invalid_state "voice audio frame duration invalid"), p)
      else let ((sequence, timestamp), reserved) =
          advance_by_samples p.reserved_sequence duration_samples in
        let rtp_header = build_header p.packet_builder sequence timestamp in
        let (sealed, protection) = seal p.protection rtp_header frame in
        (
          sealed >>= λ packet.
              protection_nonce_from_packet packet (is_some p.protection) >>= λ nonce. ok (record {
                bytes = packet;
                duration_ms = duration_ms;
                duration_samples = duration_samples;
                is_track = true;
                rtp_sequence = sequence;
                rtp_timestamp = timestamp;
                protection_nonce = nonce;
              }),
          record p { reserved_sequence = reserved; protection = protection },
        )

-- The shared state of the clones of a sender: the atomic cursor, and what the socket was given.
pub record VoicePreparedPacketSender : Type 0 where
  pub send_sequence : ℕ
  pub sent : List Bytes

abbrev pub new_sender : VoicePreparedPacketSender
unfolding pack_rtp_cursor
new_sender = record { send_sequence = pack_rtp_cursor initial; sent = [] }

-- The check before the datagram: the packet must be the one at the cursor.
unfoldable pub is_next_send : VoicePreparedPacketSender → PreparedVoicePacket → Bool
unfolding unpack_rtp_cursor
is_next_send s p =
    let at = unpack_rtp_cursor s.send_sequence in
    not (not (p.rtp_sequence == at.sequence) || not (p.rtp_timestamp == at.timestamp))

-- The compare-and-exchange after the datagram.
unfoldable pub commit_send :
    VoicePreparedPacketSender
    → PreparedVoicePacket
    → Result VoiceError (Unit {0}) × VoicePreparedPacketSender
commit_send s p =
    let expected_cursor = pack_rtp_cursor_parts p.rtp_sequence p.rtp_timestamp in
    let next_cursor =
      pack_rtp_cursor_parts (wrapping_add16 p.rtp_sequence 1)
        (wrapping_add32 p.rtp_timestamp p.duration_samples) in
    if s.send_sequence == expected_cursor
    then (ok tt, record s { send_sequence = next_cursor })
    else (err (invalid_state "voice prepared packet send cursor advanced concurrently"), s)

-- A send with nobody else between its steps.
unfoldable pub send_prepared_packet :
    Bool
    → VoicePreparedPacketSender
    → PreparedVoicePacket
    → Result VoiceError (Unit {0}) × VoicePreparedPacketSender
send_prepared_packet socket_ok s p =
    if not (is_next_send s p)
    then (err (invalid_state "voice prepared packet rtp cursor is not next send"), s)
    else if socket_ok
    then commit_send (record s { sent = s.sent ++ (p.bytes ∷ []) }) p
    else (err io, s)

pub record VoiceUdpTransport : Type 0 where
  pub preparer : VoicePacketPreparer
  pub sender : VoicePreparedPacketSender

unfoldable pub with_protection : VoiceUdpTransport → ProtectionContext → VoiceUdpTransport
with_protection t c = record t { preparer = record (t.preparer) { protection = some c } }

unfoldable pub discard_unsent_prepared_packets : VoiceUdpTransport → VoiceUdpTransport
discard_unsent_prepared_packets t = record t {
  preparer = record (t.preparer) { reserved_sequence = unpack_rtp_cursor t.sender.send_sequence };
}

-- `socket.recv_from` gives a datagram and its source; those from elsewhere are passed over.
-- `none` where the datagrams that arrive end before one of the server.
unfoldable pub receive_packet :
    {Addr : Type 0}
    → (Addr → Addr → Bool)
    → Addr
    → ℕ
    → List (Bytes × Addr)
    → Option (Result VoiceError Bytes)
receive_packet same server max_packet_len [] =
    if max_packet_len == 0
    then some (err (invalid_state "voice udp receive size invalid"))
    else none
receive_packet same server max_packet_len ((datagram, from) ∷ rest) =
    let later = receive_packet same server max_packet_len rest in
    if max_packet_len == 0
    then some (err (invalid_state "voice udp receive size invalid"))
    else if not (same from server)
    then later
    else some (ok (take max_packet_len datagram))

-- The packet is sent where it could be prepared.
unfoldable pub send_prepared :
    Bool
    → VoiceUdpTransport
    → Result VoiceError PreparedVoicePacket
    → Result VoiceError (Unit {0}) × VoiceUdpTransport
send_prepared socket_ok t (ok p) =
    let (r, sender) = send_prepared_packet socket_ok t.sender p in (r, record t { sender = sender })
send_prepared socket_ok t (err e) = (err e, t)
send_prepared socket_ok t panic = (panic, t)

abbrev pub opus_silence_frame : Bytes
opus_silence_frame = 0xf8 ∷ 0xff ∷ 0xfe ∷ []

module _ (ciphers : EncryptionMode → Aead) where
  unfoldable pub send_audio_frame :
      Bool → VoiceUdpTransport → Bytes → ℕ → Result VoiceError (Unit {0}) × VoiceUdpTransport
  send_audio_frame socket_ok t frame duration_samples =
      let (prepared, preparer) =
        prepare_audio_packet ciphers t.preparer frame (duration_ms_from_samples duration_samples)
          duration_samples in
      send_prepared socket_ok (record t { preparer = preparer }) prepared

  -- The rounds of `send_stop_silence` that are left; the list answers the `send_to` of each.
  unfoldable pub send_silence :
      List Bool → VoiceUdpTransport → Result VoiceError (Unit {0}) × VoiceUdpTransport
  send_silence [] t = (ok tt, t)
  send_silence (socket_ok ∷ answers) t =
      and_then (send_audio_frame socket_ok t opus_silence_frame 960)
        (λ _ t'. send_silence answers t')

  unfoldable pub send_stop_silence :
      Bool
      → Bool
      → Bool
      → Bool
      → Bool
      → VoiceUdpTransport
      → Result VoiceError (Unit {0}) × VoiceUdpTransport
  send_stop_silence a b c d e t = send_silence (a ∷ b ∷ c ∷ d ∷ e ∷ []) t
