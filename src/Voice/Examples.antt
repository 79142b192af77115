-- ===== src/Voice/Examples.antt =====
-- The voice crate at concrete inputs: a cipher that satisfies the interface, packets and messages.
use discord_voice_service.Common.{
  ℕ, ◌+◌, ◌*◌, ◌%◌, ◌≤◌, ◌≡◌, ◌≢◌, refl, Bool, true, String, Option, some, none, [], ◌∷◌, ◌++◌,
  length, replicate, ◌==◌, ok, Ensures, arith,
}
use discord_voice_service.Common.Bytes.{Bytes, be_bytes16}
use discord_voice_service.Voice.Rtp.{
  RtpPacketBuilder, build_header, build, parse_rtp_header, RtpSequenceState,
}
use discord_voice_service.Voice.Rtp.Header.{parse_rtp_header-Ensures}
use discord_voice_service.Voice.Rtp.RoundTrip.{built_header, parse_rtp_header-build}
use discord_voice_service.Voice.Crypto.{EncryptionMode, aead_aes256_gcm_rtpsize}
use discord_voice_service.Voice.Protection.{
  Aead, IsAead, ProtectionContext, encrypted, protect_packet, unprotect_packet,
}
use discord_voice_service.Voice.Protection.Nonce.{IsSealed, after-nonce_ne}
use discord_voice_service.Voice.Protection.RoundTrip.{unprotect-protect}
use discord_voice_service.Voice.GatewayBinary.{
  prepare_commit_transition, parse_gateway_binary_message,
}
use discord_voice_service.Voice.GatewayBinary.RoundTrip.{
  event_bytes, parse_gateway_binary_message-event_bytes,
}
use discord_voice_service.Voice.Udp.{
  PreparedVoicePacket, pack_rtp_cursor, VoicePreparedPacketSender,
}
use discord_voice_service.Voice.Udp.Cursor.{InRange}
use discord_voice_service.Voice.Udp.Pipeline.{state_after, send_all, send_all-InOrder}

-- A cipher that leaves the text as it is, with a tag of zeros.
abbrev open_cipher : Aead
open_cipher = record {
  accepts_key = λ key. length key == 32;
  encrypt = λ key nonce ad text. some (text, replicate 16 0);
  decrypt = λ key nonce ad text tag. some text;
}

open_cipher-IsAead : IsAead open_cipher
open_cipher-IsAead = record {
  accepts = λ key h. ground arith;
  encrypts = λ key nonce ad text h h'. (text, replicate 16 0, refl, refl, refl, refl);
}

abbrev ciphers : EncryptionMode → Aead
ciphers mode = open_cipher

abbrev context : ℕ → ProtectionContext
context n = record { mode = aead_aes256_gcm_rtpsize; secret_key = replicate 32 7; next_nonce = n }

abbrev builder : RtpPacketBuilder
builder = record { ssrc = 1_234 }

abbrev last_state : RtpSequenceState
last_state = record { sequence = 65_535; timestamp = 4_294_967_000 }

abbrev packet_at : ℕ → ℕ → PreparedVoicePacket
packet_at sequence timestamp = record {
  bytes = sequence % 256 ∷ [];
  duration_ms = 20;
  duration_samples = 960;
  is_track = true;
  rtp_sequence = sequence;
  rtp_timestamp = timestamp;
  protection_nonce = none;
}

abbrev sender_at : RtpSequenceState → VoicePreparedPacketSender
sender_at at = record { send_sequence = pack_rtp_cursor at; sent = [] }

last_state-InRange : InRange last_state
last_state-InRange = record { sequence_fits = omega arith; timestamp_fits = omega arith }

parse_rtp_header-build_example :
    parse_rtp_header (build builder 65_535 960 (1 ∷ 2 ∷ [])) ≡ ok (built_header builder 65_535 960)
parse_rtp_header-build_example =
    parse_rtp_header-build builder 65_535 960 (1 ∷ 2 ∷ []) (omega arith) (omega arith) (omega arith)

parse_rtp_header-Ensures_example :
    Ensures
      (λ h.
        (h.version ≡ 2)
        × (12 + h.csrc_count * 4 ≤ h.header_len)
        × (h.header_len ≤ length (build builder 1 960 [])))
      (parse_rtp_header (build builder 1 960 []))
parse_rtp_header-Ensures_example = parse_rtp_header-Ensures (build builder 1 960 [])

after-nonce_ne_example :
    (suffix : Bytes) × (later_suffix : Bytes) × IsSealed ciphers
      (context 4_294_967_295)
      (1 ∷ [], 2 ∷ [])
      suffix
      (1 ∷ 2 ∷ (replicate 16 0 ++ replicate 4 255))
    × IsSealed ciphers
        (context 4_294_967_295)
        (1 ∷ [], 3 ∷ [])
        later_suffix
        (1 ∷ 3 ∷ replicate 20 0)
    × (later_suffix ≢ suffix)
unfolding protect_packet encrypted
after-nonce_ne_example =
    after-nonce_ne ciphers (context 4_294_967_295) (1 ∷ [], 2 ∷ []) (1 ∷ [], 3 ∷ []) [] _ _
      (omega arith) (omega arith) refl refl

unprotect-protect_example :
    (packet : Bytes) × ((protect_packet ciphers
        (context 5)
        (build_header builder 1 960)
        (1 ∷ 2 ∷ [])).0
      ≡ ok packet)
    × (unprotect_packet ciphers (context 9) packet ≡ ok (built_header builder 1 960, 1 ∷ 2 ∷ []))
unprotect-protect_example =
    unprotect-protect ciphers (λ mode. open_cipher-IsAead) (context 5) (context 9) builder 1 960
      (1 ∷ 2 ∷ []) refl refl refl (omega arith) (omega arith) (omega arith) (omega arith)

abbrev local_address : Bytes
local_address = 49 ∷ 46 ∷ 49 ∷ []

abbrev name_of : Bytes → Option String
name_of bytes = some "1.1"

abbrev same : ℕ → ℕ → Bool
same a b = a == b

parse_gateway_binary_message-event_bytes_example :
    parse_gateway_binary_message
      (be_bytes16 300 ++ event_bytes (prepare_commit_transition 2 (9 ∷ [])))
    ≡ ok (record { event = prepare_commit_transition 2 (9 ∷ []); seq = some 300 })
parse_gateway_binary_message-event_bytes_example =
    parse_gateway_binary_message-event_bytes 300 (prepare_commit_transition 2 (9 ∷ []))
      (omega arith) (omega arith)

send_all-InOrder_example :
    send_all (sender_at last_state) (packet_at 65_535 4_294_967_000 ∷ packet_at 0 664 ∷ []) ≡ (
      ok tt,
      record {
        send_sequence =
            pack_rtp_cursor
              (state_after last_state (packet_at 65_535 4_294_967_000 ∷ packet_at 0 664 ∷ []));
        sent = (255 ∷ []) ∷ (0 ∷ []) ∷ [];
      },
    )
send_all-InOrder_example =
    send_all-InOrder (sender_at last_state) (packet_at 65_535 4_294_967_000 ∷ packet_at 0 664 ∷ [])
      last_state last_state-InRange refl (refl, refl, (refl, refl, tt))
