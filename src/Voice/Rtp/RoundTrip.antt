-- ===== src/Voice/Rtp/RoundTrip.antt =====
-- rtp.rs: parsing what the packet builder writes.
use discord_voice_service.Common.{ℕ, ◌≡◌, false, ok, arith}
use discord_voice_service.Common.Words.{IsU16, IsU32}
use discord_voice_service.Common.Bytes.{Bytes, from_be16-be_bytes16, from_be32-be_bytes32}
use discord_voice_service.Voice.Rtp.{
  RtpHeader, RtpPacketBuilder, build, read_header, parse_rtp_header,
}

-- The header that the builder stands for: no padding, no extension, no CSRC, payload type 0x78.
abbrev pub built_header : RtpPacketBuilder → ℕ → ℕ → RtpHeader
built_header b sequence timestamp = record {
  version = 2;
  padding = false;
  extension = false;
  csrc_count = 0;
  marker = false;
  payload_type = 0x78;
  sequence = sequence;
  timestamp = timestamp;
  ssrc = b.ssrc;
  header_len = 12;
}

-- A packet that the builder makes from words in range parses to exactly those words, and the
-- payload starts at byte 12.
pub parse_rtp_header-build :
    (b : RtpPacketBuilder) (sequence timestamp : ℕ) (payload : Bytes)
    → IsU16 sequence
    → IsU32 timestamp
    → IsU32 b.ssrc
    → parse_rtp_header (build b sequence timestamp payload) ≡ ok (built_header b sequence timestamp)
unfolding parse_rtp_header build read_header
parse_rtp_header-build b sequence timestamp payload hs ht hr = ground (
  arith,
  from_be16-be_bytes16 sequence hs,
  from_be32-be_bytes32 timestamp ht,
  from_be32-be_bytes32 b.ssrc hr,
)
