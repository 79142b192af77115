-- ===== src/Voice/Rtp/Header.antt =====
-- rtp.rs: what an accepted RTP header promises.
use discord_voice_service.Common.{
  ℕ, ◌+◌, ◌*◌, ◌/◌, ◌^◌, ◌≤◌, ◌≡◌, length, bit_and, arith, get_elem?-eq-get_or, Ensures,
}
use discord_voice_service.Common.Bytes.{Bytes}
use discord_voice_service.Voice.Rtp.{extension_end, read_header, parse_rtp_header}

extension_end-Ensures :
    (packet : Bytes) (n : ℕ) → Ensures (λ m. (n ≤ m) × (m ≤ length packet)) (extension_end packet n)
unfolding extension_end
extension_end-Ensures packet n =
    ground (arith, get_elem?-eq-get_or packet (n + 2) 0, get_elem?-eq-get_or packet (n + 3) 0)

read_header-Ensures :
    (packet : Bytes) (first second n : ℕ)
    → 12 ≤ length packet
    → Ensures
        (λ h. (h.version ≡ first / 2 ^ 6) × (h.csrc_count ≡ bit_and first 15) × (h.header_len ≡ n))
        (read_header packet first second n)
unfolding read_header
read_header-Ensures packet first second n h = ground (
  arith,
  get_elem?-eq-get_or packet 2 0,
  get_elem?-eq-get_or packet 3 0,
  get_elem?-eq-get_or packet 4 0,
  get_elem?-eq-get_or packet 5 0,
  get_elem?-eq-get_or packet 6 0,
  get_elem?-eq-get_or packet 7 0,
  get_elem?-eq-get_or packet 8 0,
  get_elem?-eq-get_or packet 9 0,
  get_elem?-eq-get_or packet 10 0,
  get_elem?-eq-get_or packet 11 0,
)

-- Parsing never reads out of bounds, on any bytes; an accepted header has version 2, covers its
-- CSRC list, and ends inside the packet.
pub parse_rtp_header-Ensures :
    (packet : Bytes)
    → Ensures
        (λ h.
          (h.version ≡ 2) × (12 + h.csrc_count * 4 ≤ h.header_len) × (h.header_len ≤ length packet))
        (parse_rtp_header packet)
unfolding parse_rtp_header
parse_rtp_header-Ensures packet = grind (
  arith,
  get_elem?-eq-get_or packet 0 0,
  get_elem?-eq-get_or packet 1 0,
  extension_end-Ensures,
  read_header-Ensures,
)
