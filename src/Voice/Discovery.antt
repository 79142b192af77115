-- ===== src/Voice/Discovery.antt =====
-- crates/discord-voice-service-voice/src/discovery.rs: the IP discovery exchange. The socket enters
-- as the datagram that answers the request, the addresses and the decoding of UTF-8 as parameters.
pub mod RoundTrip
use discord_voice_service.Common.{
  ℕ, zero, suc, ◌+◌, ◌-◌, Bool, String, not, Option, none, some, List, [], ◌∷◌, ◌++◌, ltb, ◌==◌,
  if◌then◌else◌, length, take, drop, replicate, min, Result, ok, err, ◌>>=◌, ◌>>◌, fail_if, ok_or,
  index, slice_to,
}
use discord_voice_service.Common.Bytes.{Bytes, be_bytes16, be_bytes32, from_be16, from_be32}
use discord_voice_service.Voice.Error.{VoiceError, invalid_state, io}

abbrev pub discovery_packet_len : ℕ
discovery_packet_len = 74

abbrev pub discovery_request_type : ℕ
discovery_request_type = 0x1

abbrev pub discovery_response_type : ℕ
discovery_response_type = 0x2

abbrev pub discovery_body_len : ℕ
discovery_body_len = 70

pub record DiscoveredUdpAddress : Type 0 where
  pub ip : String
  pub port : ℕ

-- The 66 bytes after the SSRC stay zero.
unfoldable pub build_ip_discovery_packet : ℕ → Bytes
build_ip_discovery_packet ssrc =
    be_bytes16 discovery_request_type
    ++ (be_bytes16 discovery_body_len ++ (be_bytes32 ssrc ++ replicate 66 0))

-- The bytes before the first zero, or all of them.
abbrev pub until_zero : Bytes → Bytes
until_zero [] = []
until_zero (b ∷ rest) = if b == 0 then [] else b ∷ until_zero rest

module _ (from_utf8 : Bytes → Option String) where
  -- The address and the port of a response that has all its bytes.
  unfoldable pub read_address : Bytes → Result VoiceError DiscoveredUdpAddress
  read_address buf = do
    to_72 ← slice_to buf 72
    let address = until_zero (drop 8 to_72)
    ip ← ok_or (from_utf8 address) (invalid_state "ip discovery response ip invalid utf-8")
    fail_if (length address == 0) (invalid_state "ip discovery response ip missing")
    p0 ← index buf 72
    p1 ← index buf 73
    ok (record { ip = ip; port = from_be16 p0 p1 })

  unfoldable pub parse_ip_discovery_response : Bytes → Result VoiceError DiscoveredUdpAddress
  parse_ip_discovery_response buf = do
    fail_if (ltb (length buf) discovery_packet_len)
        (invalid_state "ip discovery response shorter than expected")
    t0 ← index buf 0
    t1 ← index buf 1
    fail_if (not (from_be16 t0 t1 == discovery_response_type))
        (invalid_state "ip discovery response type invalid")
    l0 ← index buf 2
    l1 ← index buf 3
    fail_if (not (from_be16 l0 l1 == discovery_body_len))
        (invalid_state "ip discovery response length invalid")
    read_address buf

  module _ {Addr : Type 0} (same : Addr → Addr → Bool) where
    -- What `discover_ip` makes of the bytes in its buffer; a shorter datagram leaves zeros behind it.
    unfoldable pub check_response : Addr → ℕ → Bytes → Addr → Result VoiceError DiscoveredUdpAddress
    check_response server ssrc received from = do
      let buf = received ++ replicate (discovery_packet_len - length received) 0
      fail_if (not (same from server))
          (invalid_state "ip discovery response source did not match server")
      fail_if (ltb (length received) 8)
          (invalid_state "ip discovery response shorter than expected")
      s0 ← index buf 4
      s1 ← index buf 5
      s2 ← index buf 6
      s3 ← index buf 7
      fail_if (not (from_be32 s0 s1 s2 s3 == ssrc))
          (invalid_state "ip discovery response ssrc did not match request")
      body ← slice_to buf (length received)
      parse_ip_discovery_response body

    -- The packet that is sent, and the result. `none` stands for an I/O error of the socket. A
    -- datagram longer than the buffer is cut.
    unfoldable pub discover_ip :
        Addr → ℕ → Option (Bytes × Addr) → Bytes × Result VoiceError DiscoveredUdpAddress
    discover_ip server ssrc none = (build_ip_discovery_packet ssrc, err io)
    discover_ip server ssrc (some (datagram, from)) = (
      build_ip_discovery_packet ssrc,
      check_response server ssrc (take discovery_packet_len datagram) from,
    )
