-- ===== src/Voice/Protection/RoundTrip.antt =====
-- protection.rs: unprotecting what was protected, and the errors of unprotecting.
use discord_voice_service.Common.{
  ℕ, ◌+◌, ◌-◌, ◌^◌, ◌<◌, ◌≤◌, ◌≡◌, refl, true, false, some, ◌++◌, length, drop, ok, arith,
  length-append, le→ltb_false, append_assoc, Yields, Yields-bind, ◌>>=◌, inl, inr, length-take,
  length-drop, take-append_at, drop-append_at, Option-cases, Bool-cases, ltb, ltb_false→le,
}
use discord_voice_service.Common.Words.{IsU16, IsU32}
use discord_voice_service.Common.Bytes.{Bytes, be_bytes32}
use discord_voice_service.Voice.Error.{VoiceError, is_packet_unprotect_failure}
use discord_voice_service.Voice.Crypto.{EncryptionMode}
use discord_voice_service.Voice.Rtp.{
  RtpHeader, RtpPacketBuilder, build_header, build, parse_rtp_header,
}
use discord_voice_service.Voice.Rtp.RoundTrip.{built_header, parse_rtp_header-build}
use discord_voice_service.Voice.Protection.{
  Aead, IsAead, ProtectionContext, protect_packet, encrypted, unprotect_packet, decrypted,
  split_body, strip_padding, last?, full_nonce,
}

abbrev IsFailure : VoiceError → Type 0
IsFailure e = is_packet_unprotect_failure e ≡ true

strip_padding-Yields :
    (h : RtpHeader) (text : Bytes)
    → Yields IsFailure (λ p. length p ≤ length text) (strip_padding h text)
unfolding strip_padding is_packet_unprotect_failure
strip_padding-Yields h text = elim (Bool-cases h.padding) [
  | inr plain ↦ rw plain (omega arith)
  | inl padded ↦ rw padded (elim (Option-cases (last? text)) [
    | inl missing ↦ rw missing refl
    | inr (n, found) ↦ rw found (ground (arith, length-take (length text - n) text))
  ])
]

module _ (ciphers : EncryptionMode → Aead) where
  decrypted-Yields :
      (c : ProtectionContext) (suffix header ciphertext tag : Bytes)
      → (ciphers c.mode).accepts_key c.secret_key ≡ true
      → Yields IsFailure (λ _. Unit {0}) (decrypted ciphers c suffix header ciphertext tag)
  unfolding decrypted is_packet_unprotect_failure
  decrypted-Yields c suffix header ciphertext tag k = rw k (ground arith)

  -- Every way in which a packet with a readable header is refused counts as a failure to unprotect
  -- it, given that the key is accepted; and nothing panics.
  pub unprotect_packet-Yields :
      (c : ProtectionContext) (packet : Bytes) (header : RtpHeader)
      → (ciphers c.mode).accepts_key c.secret_key ≡ true
      → parse_rtp_header packet ≡ ok header
      → Yields
          (λ e. is_packet_unprotect_failure e ≡ true)
          (λ r. (r.0 ≡ header) × (header.header_len + 20 ≤ length packet))
          (unprotect_packet ciphers c packet)
  unfolding unprotect_packet is_packet_unprotect_failure
  unprotect_packet-Yields c packet header k e =
      rw e (elim (Bool-cases (ltb (length packet) header.header_len)) [
        | inl short ↦ rw short refl
        | inr long ↦ rw long (elim (Bool-cases (ltb (length (drop header.header_len packet)) 20)) [
          | inl no_tag ↦ rw no_tag refl
          | inr body ↦ rw body (opened body _ _ _ _)
        ])
      ])
    where
      Accepted : RtpHeader × Bytes → Type 0
      Accepted r = (r.0 ≡ header) × (header.header_len + 20 ≤ length packet)

      opened :
          ltb (length (drop header.header_len packet)) 20 ≡ false
          → (suffix head ciphertext tag : Bytes)
          → Yields IsFailure Accepted (
              decrypted ciphers c suffix head ciphertext tag >>= λ text.
              strip_padding header text >>= λ payload. ok (header, payload))
      opened body suffix head ciphertext tag =
          let enough : header.header_len + 20 ≤ length packet =
            omega (arith, ltb_false→le _ _ body, length-drop header.header_len packet) in
          Yields-bind IsFailure (λ _. Unit {0}) Accepted _ _
            (decrypted-Yields c suffix head ciphertext tag k)
            (λ text _ _.
              Yields-bind IsFailure (λ p. length p ≤ length text) Accepted _ _
                (strip_padding-Yields header text) (λ payload _ _. (refl, enough)))

split_body-append :
    (ciphertext tag suffix : Bytes)
    → length tag ≡ 16
    → length suffix ≡ 4
    → split_body (ciphertext ++ (tag ++ suffix)) ≡ (ciphertext, tag, suffix)
unfolding split_body
split_body-append c t s ht hs =
    let cut : length ((c ++ t) ++ s) - 4 ≡ length (c ++ t) =
      omega (arith, length-append (c ++ t) s) in
    let cut_tag : length (c ++ t) - 16 ≡ length c = omega (arith, length-append c t) in
    rw (
      ← append_assoc c t s,
      take-append_at _ (c ++ t) s cut,
      drop-append_at _ (c ++ t) s cut,
      take-append_at _ c t cut_tag,
      drop-append_at _ c t cut_tag,
    )

-- A sealed packet under a built header is taken apart and opened.
unprotect_built :
    (ciphers : EncryptionMode → Aead) (d : ProtectionContext) (b : RtpPacketBuilder)
    (sequence timestamp : ℕ) (ct tag suffix payload : Bytes)
    → IsU16 sequence
    → IsU32 timestamp
    → IsU32 b.ssrc
    → length tag ≡ 16
    → length suffix ≡ 4
    → (ciphers d.mode).accepts_key d.secret_key ≡ true
    → (ciphers d.mode).decrypt d.secret_key
        (full_nonce d.mode suffix)
        (build_header b sequence timestamp)
        ct
        tag
      ≡ some payload
    → unprotect_packet ciphers d (build_header b sequence timestamp ++ (ct ++ (tag ++ suffix)))
      ≡ ok (built_header b sequence timestamp, payload)
unfolding unprotect_packet decrypted build build_header strip_padding
unprotect_built ciphers d b sequence timestamp ct tag suffix payload hs ht hr lt ls accepted
      opened =
    let body = ct ++ (tag ++ suffix) in
    let size : 20 ≤ length body =
      omega (arith, length-append ct (tag ++ suffix), length-append tag suffix) in
    rw (
      parse_rtp_header-build b sequence timestamp body hs ht hr,
      le→ltb_false (length (build_header b sequence timestamp ++ body)) 12 (omega arith),
      le→ltb_false (length body) 20 size,
      split_body-append ct tag suffix lt ls,
      accepted,
      opened,
    )

module _ (ciphers : EncryptionMode → Aead)
    (lawful : (m : EncryptionMode) → IsAead (ciphers m)) where
  -- A payload that one context protects under a built header is recovered, with the header, by any
  -- context of the same mode and key: protecting succeeds, and unprotecting inverts it.
  pub unprotect-protect :
      (c d : ProtectionContext) (b : RtpPacketBuilder) (sequence timestamp : ℕ) (payload : Bytes)
      → length c.secret_key ≡ 32
      → d.mode ≡ c.mode
      → d.secret_key ≡ c.secret_key
      → IsU16 sequence
      → IsU32 timestamp
      → IsU32 b.ssrc
      → length payload < 2 ^ 32
      → (packet : Bytes) × ((protect_packet ciphers c (build_header b sequence timestamp) payload).0
          ≡ ok packet)
        × (unprotect_packet ciphers d packet ≡ ok (built_header b sequence timestamp, payload))
  unfolding protect_packet unprotect_packet encrypted decrypted
  unprotect-protect c d b sequence timestamp payload hk hm hd hs ht hr hp =
      let suffix = be_bytes32 c.next_nonce in
      let head = build_header b sequence timestamp in
      let nonce = full_nonce c.mode suffix in
      let law = lawful c.mode in
      let accepted = law.accepts c.secret_key hk in
      let (ct, tag, sealed, lc, lt, opened) = law.encrypts c.secret_key nonce head payload hk hp in
      let body = ct ++ (tag ++ suffix) in
      (
        head ++ body,
        rw (accepted, sealed),
        unprotect_built ciphers d b sequence timestamp ct tag suffix payload hs ht hr lt refl
            (rw (hm, hd) accepted) (rw (hm, hd) opened),
      )
