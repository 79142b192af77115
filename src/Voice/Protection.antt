-- ===== src/Voice/Protection.antt =====
-- crates/discord-voice-service-voice/src/protection.rs: authenticated encryption of RTP packets.
-- The two ciphers come from the crates aes-gcm and chacha20poly1305; they are a parameter.
pub mod Nonce
pub mod RoundTrip
use discord_voice_service.Common.{
  ℕ, ◌+◌, ◌-◌, ◌≡◌, ◌<◌, ◌^◌, Bool, true, Option, none, some, List, [], ◌∷◌, ◌++◌, ◌||◌, not, ltb,
  ◌==◌, if◌then◌else◌, length, take, drop, replicate, Result, ok, err, ◌>>=◌, ◌>>◌, fail_if, ok_or,
  slice_to,
}
use discord_voice_service.Common.Words.{wrapping_add32}
use discord_voice_service.Common.Bytes.{Bytes, be_bytes32}
use discord_voice_service.Voice.Error.{VoiceError, invalid_state}
use discord_voice_service.Voice.Crypto.{
  EncryptionMode, aead_aes256_gcm_rtpsize, aead_xchacha20_poly1305_rtpsize, from_str,
}
use discord_voice_service.Voice.Rtp.{RtpHeader, parse_rtp_header}

-- One cipher of the RustCrypto AEAD traits: `new_from_slice` succeeds, `encrypt_in_place_detached`
-- gives ciphertext and tag, `decrypt_in_place_detached` gives the plaintext. The arguments are the
-- key, the nonce, the associated data, and the text.
pub record Aead : Type 0 where
  pub accepts_key : Bytes → Bool
  pub encrypt : Bytes → Bytes → Bytes → Bytes → Option (Bytes × Bytes)
  pub decrypt : Bytes → Bytes → Bytes → Bytes → Bytes → Option Bytes

-- What the traits document: keys of 32 bytes are accepted; a text below 2 ^ 32 bytes is encrypted
-- to as many bytes and a tag of 16, and those are decrypted to it.
pub record IsAead (a : Aead) : Type 0 where
  pub accepts : (key : Bytes) → length key ≡ 32 → a.accepts_key key ≡ true
  pub encrypts :
      (key nonce ad text : Bytes)
      → length key ≡ 32
      → length text < 2 ^ 32
      → (c : Bytes) × (t : Bytes) × (a.encrypt key nonce ad text ≡ some (c, t))
        × (length c ≡ length text)
        × (length t ≡ 16)
        × (a.decrypt key nonce ad c t ≡ some text)

abbrev pub tag_len : ℕ
tag_len = 16

abbrev pub nonce_suffix_len : ℕ
nonce_suffix_len = 4

pub record ProtectionContext : Type 0 where
  pub mode : EncryptionMode
  pub secret_key : Bytes
  pub next_nonce : ℕ

unfoldable pub new_context : EncryptionMode → Bytes → Result VoiceError ProtectionContext
new_context mode secret_key =
    if not (length secret_key == 32)
    then err (invalid_state "voice packet protection key invalid")
    else ok (record { mode = mode; secret_key = secret_key; next_nonce = 0 })

-- The nonce of the cipher: 12 bytes for AES-GCM and 24 for XChaCha20, the counter's bytes first.
abbrev pub full_nonce : EncryptionMode → Bytes → Bytes
full_nonce aead_aes256_gcm_rtpsize suffix = suffix ++ replicate 8 0
full_nonce aead_xchacha20_poly1305_rtpsize suffix = suffix ++ replicate 20 0

-- Ciphertext, tag and nonce suffix of a body, by the two `split_at` calls.
unfoldable pub split_body : Bytes → Bytes × Bytes × Bytes
split_body body =
    let suffix_at = length body - nonce_suffix_len in
    let ciphertext_and_tag = take suffix_at body in
    let tag_at = length ciphertext_and_tag - tag_len in
    (take tag_at ciphertext_and_tag, drop tag_at ciphertext_and_tag, drop suffix_at body)

-- `plaintext.last()`
abbrev pub last? : Bytes → Option ℕ
last? [] = none
last? (b ∷ []) = some b
last? (b ∷ c ∷ rest) = last? (c ∷ rest)

-- The padding of an RTP payload is counted by its last byte.
unfoldable pub strip_padding : RtpHeader → Bytes → Result VoiceError Bytes
strip_padding header plaintext = if header.padding then stripped else (ok plaintext)
  where
    stripped : Result VoiceError Bytes
    stripped = do
      padding_len ← ok_or (last? plaintext) (invalid_state "voice rtp padding invalid")
      fail_if (padding_len == 0 || ltb (length plaintext) padding_len)
          (invalid_state "voice rtp padding invalid")
      ok (take (length plaintext - padding_len) plaintext)

module _ (ciphers : EncryptionMode → Aead) where
  unfoldable pub encrypted :
      ProtectionContext → Bytes → Bytes → Bytes → Result VoiceError (Bytes × Bytes)
  encrypted c nonce_suffix rtp_header payload = do
    let cipher = ciphers c.mode
    fail_if (not (cipher.accepts_key c.secret_key))
        (invalid_state "voice packet protection key invalid")
    ok_or (cipher.encrypt c.secret_key (full_nonce c.mode nonce_suffix) rtp_header payload)
        (invalid_state "voice packet protection failed")

  -- The counter moves on whether or not the packet is encrypted.
  unfoldable pub protect_packet :
      ProtectionContext → Bytes → Bytes → Result VoiceError Bytes × ProtectionContext
  protect_packet c rtp_header payload =
      let nonce_suffix = be_bytes32 c.next_nonce in
      (
        encrypted c nonce_suffix rtp_header payload >>= λ sealed.
            ok (rtp_header ++ (sealed.0 ++ (sealed.1 ++ nonce_suffix))),
        record c { next_nonce = wrapping_add32 c.next_nonce 1 },
      )

  unfoldable pub decrypted :
      ProtectionContext → Bytes → Bytes → Bytes → Bytes → Result VoiceError Bytes
  decrypted c nonce_suffix header_bytes ciphertext tag = do
    let cipher = ciphers c.mode
    fail_if (not (cipher.accepts_key c.secret_key))
        (invalid_state "voice packet protection key invalid")
    ok_or (cipher.decrypt c.secret_key (full_nonce c.mode nonce_suffix) header_bytes ciphertext tag)
        (invalid_state "voice packet unprotect failed")

  unfoldable pub unprotect_packet :
      ProtectionContext → Bytes → Result VoiceError (RtpHeader × Bytes)
  unprotect_packet c packet = do
    header ← parse_rtp_header packet
    fail_if (ltb (length packet) header.header_len)
        (invalid_state "voice protected packet truncated")
    let protected_body = drop header.header_len packet
    fail_if (ltb (length protected_body) (tag_len + nonce_suffix_len))
        (invalid_state "voice protected packet body too short")
    let (ciphertext, tag, nonce_suffix) = split_body protected_body
    header_bytes ← slice_to packet header.header_len
    plaintext ← decrypted c nonce_suffix header_bytes ciphertext tag
    payload ← strip_padding header plaintext
    ok (header, payload)
