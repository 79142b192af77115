-- ===== src/Voice/Rtp.antt =====
-- crates/discord-voice-service-voice/src/rtp.rs: RTP headers, and the sequence state.
pub mod Header
pub mod RoundTrip
pub mod Sequence
use discord_voice_service.Common.{
  ℕ, ◌+◌, ◌*◌, ◌/◌, ◌^◌, Bool, not, List, [], ◌∷◌, ◌++◌, ltb, ◌==◌, if◌then◌else◌, length, bit_and,
}
use discord_voice_service.Common.{Result, ok, err, ◌>>=◌, ◌>>◌, fail_if, index}
use discord_voice_service.Common.Words.{wrapping_add16, wrapping_add32}
use discord_voice_service.Common.Bytes.{Bytes, be_bytes16, be_bytes32, from_be16, from_be32}
use discord_voice_service.Voice.Error.{VoiceError, invalid_state}

pub record RtpHeader : Type 0 where
  pub version : ℕ
  pub padding : Bool
  pub extension : Bool
  pub csrc_count : ℕ
  pub marker : Bool
  pub payload_type : ℕ
  pub sequence : ℕ
  pub timestamp : ℕ
  pub ssrc : ℕ
  pub header_len : ℕ

pub record RtpPacketBuilder : Type 0 where
  pub ssrc : ℕ

unfoldable pub build_header : RtpPacketBuilder → ℕ → ℕ → Bytes
build_header b sequence timestamp =
    0x80 ∷ 0x78 ∷ (be_bytes16 sequence ++ be_bytes32 timestamp ++ be_bytes32 b.ssrc)

unfoldable pub build : RtpPacketBuilder → ℕ → ℕ → Bytes → Bytes
unfolding build_header
build b sequence timestamp payload = build_header b sequence timestamp ++ payload

-- The end of the header where the CSRC list is followed by an extension.
unfoldable pub extension_end : Bytes → ℕ → Result VoiceError ℕ
extension_end packet header_len = do
  fail_if (ltb (length packet) (header_len + 4))
      (invalid_state "voice rtp extension header truncated")
  hi ← index packet (header_len + 2)
  lo ← index packet (header_len + 3)
  let extended = header_len + (4 + from_be16 hi lo * 4)
  fail_if (ltb (length packet) extended) (invalid_state "voice rtp extension truncated")
  ok extended

-- The fields at fixed places, read once the lengths have been checked.
unfoldable pub read_header : Bytes → ℕ → ℕ → ℕ → Result VoiceError RtpHeader
read_header packet first second header_len = do
  s0 ← index packet 2
  s1 ← index packet 3
  t0 ← index packet 4
  t1 ← index packet 5
  t2 ← index packet 6
  t3 ← index packet 7
  r0 ← index packet 8
  r1 ← index packet 9
  r2 ← index packet 10
  r3 ← index packet 11
  ok (record {
    version = first / 2 ^ 6;
    padding = not (bit_and first 0b0010_0000 == 0);
    extension = not (bit_and first 0b0001_0000 == 0);
    csrc_count = bit_and first 0b0000_1111;
    marker = not (bit_and second 0b1000_0000 == 0);
    payload_type = bit_and second 0b0111_1111;
    sequence = from_be16 s0 s1;
    timestamp = from_be32 t0 t1 t2 t3;
    ssrc = from_be32 r0 r1 r2 r3;
    header_len = header_len;
  })

unfoldable pub parse_rtp_header : Bytes → Result VoiceError RtpHeader
parse_rtp_header packet = do
  fail_if (ltb (length packet) 12) (invalid_state "voice rtp packet too short")
  first ← index packet 0
  fail_if (not (first / 2 ^ 6 == 2)) (invalid_state "voice rtp version unsupported")
  second ← index packet 1
  let csrc_end = 12 + bit_and first 0b0000_1111 * 4
  fail_if (ltb (length packet) csrc_end) (invalid_state "voice rtp csrc list truncated")
  header_len ←
      (if not (bit_and first 0b0001_0000 == 0) then extension_end packet csrc_end else ok csrc_end)
  read_header packet first second header_len

pub record RtpSequenceState : Type 0 where
  pub sequence : ℕ
  pub timestamp : ℕ

abbrev pub initial : RtpSequenceState
initial = record { sequence = 0; timestamp = 0 }

abbrev pub from_parts : ℕ → ℕ → RtpSequenceState
from_parts sequence timestamp = record { sequence = sequence; timestamp = timestamp }

abbrev pub current : RtpSequenceState → ℕ × ℕ
current s = (s.sequence, s.timestamp)

-- The values before the step, and the state after it.
unfoldable pub advance_by_samples : RtpSequenceState → ℕ → (ℕ × ℕ) × RtpSequenceState
advance_by_samples s timestamp_delta = (
  (s.sequence, s.timestamp),
  record {
    sequence = wrapping_add16 s.sequence 1;
    timestamp = wrapping_add32 s.timestamp timestamp_delta;
  },
)
