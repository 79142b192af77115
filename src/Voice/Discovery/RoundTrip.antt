-- ===== src/Voice/Discovery/RoundTrip.antt =====
-- discovery.rs: a response as Discord lays it out is read back, and no datagram causes a panic.
use discord_voice_service.Common.{
  ℕ, zero, suc, ◌-◌, ◌<◌, ◌≤◌, ◌≡◌, ◌≢◌, refl, ap, sym, ◌∙◌, get_elem?, get_elem?-append_at, Bool,
  not, err, append-nil, take-eq_self, String, Option, some, [], ◌∷◌, ◌++◌, length, replicate, ok,
  Ensures, arith, get_elem?-eq-get_or, length-append, length-replicate, All, le→ltb_false,
  take-append_at, ◌==◌, if◌then◌else◌, slice_to_lem, index_lem,
}
use discord_voice_service.Common.Words.{IsU16, IsU32}
use discord_voice_service.Common.Bytes.{
  Bytes, be_bytes16, be_bytes32, from_be32, from_be16-be_bytes16, from_be32-be_bytes32,
}
use discord_voice_service.Voice.Error.{invalid_state}
use discord_voice_service.Voice.Discovery.{
  until_zero, read_address, check_response, parse_ip_discovery_response, discover_ip,
  build_ip_discovery_packet,
}

-- A response: type, length, the SSRC, the address with its padding of zeros, and the port.
abbrev pub response : ℕ → Bytes → ℕ → Bytes
response ssrc address port =
    be_bytes16 2
    ++ (be_bytes16 70
        ++ (be_bytes32 ssrc ++ ((address ++ replicate (64 - length address) 0) ++ be_bytes16 port)))

until_zero-append :
    (xs : Bytes) (n : ℕ) → All (λ b. b ≢ 0) xs → until_zero (xs ++ replicate n 0) ≡ xs
until_zero-append [] zero h = refl
until_zero-append [] (suc n) h = refl
until_zero-append (x ∷ xs) n (p, h) = ground (arith, until_zero-append xs n h)

module _ (from_utf8 : Bytes → Option String) where
  read_address-Ensures :
      (buf : Bytes) → 74 ≤ length buf → Ensures (λ _. Unit {0}) (read_address from_utf8 buf)
  unfolding read_address
  read_address-Ensures buf h =
      rw
        (
          slice_to_lem buf 72 (omega arith),
          index_lem buf 72 0 (omega arith),
          index_lem buf 73 0 (omega arith),
        )
        (ground arith)

  -- No datagram makes the parser panic, and an accepted one has 74 bytes.
  pub parse_ip_discovery_response-Ensures :
      (buf : Bytes) → Ensures (λ a. 74 ≤ length buf) (parse_ip_discovery_response from_utf8 buf)
  unfolding parse_ip_discovery_response
  parse_ip_discovery_response-Ensures buf = ground (
    arith,
    read_address-Ensures buf,
    get_elem?-eq-get_or buf 0 0,
    get_elem?-eq-get_or buf 1 0,
    get_elem?-eq-get_or buf 2 0,
    get_elem?-eq-get_or buf 3 0,
  )

  -- The layout that Discord documents is read back: the address is what stands before its padding,
  -- and the port is in network order.
  pub parse_response :
      (ssrc : ℕ) (address : Bytes) (port : ℕ) (ip : String)
      → All (λ b. b ≢ 0) address
      → 0 < length address
      → length address ≤ 64
      → IsU16 port
      → from_utf8 address ≡ some ip
      → parse_ip_discovery_response from_utf8 (response ssrc address port)
        ≡ ok (record { ip = ip; port = port })
  unfolding parse_ip_discovery_response read_address
  parse_response ssrc address port ip h h0 h1 hp e =
      let padded = address ++ replicate (64 - length address) 0 in
      let size : length padded ≡ 64 = omega (
        arith,
        length-append address (replicate (64 - length address) 0),
        length-replicate {A = ℕ} (64 - length address) 0,
      ) in
      rw
        (
          le→ltb_false (length (response ssrc address port)) 74
              (omega (arith, length-append padded (be_bytes16 port))),
          slice_to_lem (response ssrc address port) 72
              (omega (arith, length-append padded (be_bytes16 port))),
          take-append_at 64 padded (be_bytes16 port) (sym size),
          until_zero-append address (64 - length address) h,
          e,
          get_elem?-append_at 64 padded (be_bytes16 port) 0 (omega arith),
          get_elem?-append_at 65 padded (be_bytes16 port) 1 (omega arith),
          from_be16-be_bytes16 port hp,
        )
        (ground arith)

  length-response :
      (ssrc : ℕ) (address : Bytes) (port : ℕ)
      → length address ≤ 64
      → length (response ssrc address port) ≡ 74
  length-response ssrc address port h = omega (
    arith,
    length-append (address ++ replicate (64 - length address) 0) (be_bytes16 port),
    length-append address (replicate (64 - length address) 0),
    length-replicate {A = ℕ} (64 - length address) 0,
  )

  module _ {Addr : Type 0} (same : Addr → Addr → Bool) where
    -- A datagram of 74 bytes fills the buffer.
    check_response-full :
        (server from : Addr) (ssrc : ℕ) (received : Bytes) {s0 s1 s2 s3 : ℕ}
        → length received ≡ 74
        → get_elem? received 4 ≡ some s0
        → get_elem? received 5 ≡ some s1
        → get_elem? received 6 ≡ some s2
        → get_elem? received 7 ≡ some s3
        → check_response from_utf8 same server ssrc received from ≡ (
            if not (same from server)
            then err (invalid_state "ip discovery response source did not match server")
            else if from_be32 s0 s1 s2 s3 == ssrc
            then parse_ip_discovery_response from_utf8 received
            else err (invalid_state "ip discovery response ssrc did not match request"))
    unfolding check_response
    check_response-full server from ssrc received size e0 e1 e2 e3 =
        rw (size, append-nil received, take-eq_self 74 received (sym size), e0, e1, e2, e3)
          (ground arith)

    -- The exchange sends the request, and takes the answer of the server that echoes the SSRC; the
    -- same answer for another SSRC, or from another address, is refused.
    pub discover_ip-response :
        (server from : Addr) (ssrc echoed : ℕ) (address : Bytes) (port : ℕ) (ip : String)
        → All (λ b. b ≢ 0) address
        → 0 < length address
        → length address ≤ 64
        → IsU16 port
        → IsU32 echoed
        → from_utf8 address ≡ some ip
        → discover_ip from_utf8 same server ssrc (some (response echoed address port, from)) ≡ (
          build_ip_discovery_packet ssrc,
          if not (same from server)
              then err (invalid_state "ip discovery response source did not match server")
              else if echoed == ssrc
              then ok (record { ip = ip; port = port })
              else err (invalid_state "ip discovery response ssrc did not match request"),
        )
    unfolding discover_ip
    discover_ip-response server from ssrc echoed address port ip h h0 h1 hp he e =
        let answer = response echoed address port in
        let size = length-response echoed address port h1 in
        ap
          (λ received. (
            build_ip_discovery_packet ssrc,
            check_response from_utf8 same server ssrc received from,
          ))
          (take-eq_self 74 answer (sym size))
        ∙ ap (λ r. (build_ip_discovery_packet ssrc, r))
            (check_response-full server from ssrc answer size refl refl refl refl
              ∙ rw (
                from_be32-be_bytes32 echoed he,
                parse_response echoed address port ip h h0 h1 hp e,
              ))
