-- ===== src/Voice/Protection/Nonce.antt =====
-- protection.rs: no nonce is used twice.
use discord_voice_service.Common.{
  ◌+◌, ◌%◌, ◌^◌, ◌<◌, ◌≡◌, ◌≢◌, refl, subst, inl, inr, true, Option, none, some, List, [], ◌∷◌,
  ◌++◌, length, Result, ok, Bool-cases, arith,
}
use discord_voice_service.Common.Words.{IsU32}
use discord_voice_service.Common.Bytes.{Bytes, be_bytes32, be_bytes32-injective}
use discord_voice_service.Voice.Error.{VoiceError}
use discord_voice_service.Voice.Crypto.{EncryptionMode}
use discord_voice_service.Voice.Protection.{
  Aead, ProtectionContext, full_nonce, encrypted, protect_packet,
}

ok_injective : (r : Result VoiceError Bytes) {a b : Bytes} → r ≡ ok a → r ≡ ok b → a ≡ b
ok_injective r p q = cc

module _ (ciphers : EncryptionMode → Aead) where
  -- The context after a run of packets, each a header and a payload.
  abbrev pub after : ProtectionContext → List (Bytes × Bytes) → ProtectionContext
  after c [] = c
  after c ((header, payload) ∷ rest) = after (protect_packet ciphers c header payload).1 rest

  after-next_nonce :
      (c : ProtectionContext) (packets : List (Bytes × Bytes))
      → IsU32 c.next_nonce
      → (after c packets).next_nonce ≡ (c.next_nonce + length packets) % 2 ^ 32
  unfolding protect_packet
  after-next_nonce c [] h = omega arith
  after-next_nonce c ((header, payload) ∷ rest) h =
      omega (arith, after-next_nonce (protect_packet ciphers c header payload).1 rest (omega arith))

  -- The packet is the header, the ciphertext and the tag that the cipher gives for the payload under the
  -- nonce of that suffix, and the suffix.
  abbrev pub IsSealed : ProtectionContext → Bytes × Bytes → Bytes → Bytes → Type 0
  IsSealed c (header, payload) suffix packet =
      (ciphertext : Bytes) × (tag : Bytes) × ((ciphers c.mode).encrypt c.secret_key
          (full_nonce c.mode suffix) header payload
        ≡ some (ciphertext, tag))
      × (packet ≡ header ++ (ciphertext ++ (tag ++ suffix)))

  protect_packet-IsSealed :
      (c : ProtectionContext) (header payload packet : Bytes)
      → (protect_packet ciphers c header payload).0 ≡ ok packet
      → IsSealed c (header, payload) (be_bytes32 c.next_nonce) packet
  unfolding protect_packet encrypted
  protect_packet-IsSealed c header payload packet h =
      elim (Bool-cases ((ciphers c.mode).accepts_key c.secret_key)) [
        | inr refused ↦ absurd (ground arith)
        | inl accepted ↦
            sealed
              ((ciphers c.mode).encrypt c.secret_key (full_nonce c.mode (be_bytes32 c.next_nonce))
                header payload)
              refl accepted
      ]
    where
      sealed :
          (result : Option (Bytes × Bytes))
          → (ciphers c.mode).encrypt c.secret_key
              (full_nonce c.mode (be_bytes32 c.next_nonce))
              header
              payload
            ≡ result
          → (ciphers c.mode).accepts_key c.secret_key ≡ true
          → IsSealed c (header, payload) (be_bytes32 c.next_nonce) packet
      sealed none e accepted = absurd (ground arith)
      sealed (some (ciphertext, tag)) e accepted =
          let known : (protect_packet ciphers c header payload).0
              ≡ ok (header ++ (ciphertext ++ (tag ++ be_bytes32 c.next_nonce))) =
            rw (accepted, e) refl in
          (ciphertext, tag, e, ok_injective _ h known)

  after-context :
      (c : ProtectionContext) (packets : List (Bytes × Bytes))
      → after c packets ≡ record c { next_nonce = (after c packets).next_nonce }
  unfolding protect_packet
  after-context c [] = refl
  after-context c ((header, payload) ∷ rest) =
      after-context (protect_packet ciphers c header payload).1 rest

  after-nonce_bytes_ne :
      (c : ProtectionContext) (packets : List (Bytes × Bytes))
      → IsU32 c.next_nonce
      → 0 < length packets
      → length packets < 2 ^ 32
      → be_bytes32 (after c packets).next_nonce ≢ be_bytes32 c.next_nonce
  after-nonce_bytes_ne c packets h h0 h1 e =
      let clash = be_bytes32-injective (after c packets).next_nonce c.next_nonce in
      omega (
        arith,
        after-next_nonce c packets h,
        clash (omega (arith, after-next_nonce c packets h)) h e,
      )

  -- Of any two packets that one context protects, with fewer than 2 ^ 32 attempts from the one to the
  -- other, protected or refused, each is sealed by the cipher under the nonce that it carries in its last
  -- four bytes, with the same key, and the two nonces are different.
  pub after-nonce_ne :
      (c : ProtectionContext) (first second : Bytes × Bytes) (between : List (Bytes × Bytes))
      (packet later : Bytes)
      → IsU32 c.next_nonce
      → length between + 1 < 2 ^ 32
      → (protect_packet ciphers c first.0 first.1).0 ≡ ok packet
      → (protect_packet ciphers (after c (first ∷ between)) second.0 second.1).0 ≡ ok later
      → (suffix : Bytes) × (later_suffix : Bytes) × IsSealed c first suffix packet
        × IsSealed c second later_suffix later
        × (later_suffix ≢ suffix)
  after-nonce_ne c first second between packet later h few sealed sealed_later = (
    be_bytes32 c.next_nonce,
    be_bytes32 (after c (first ∷ between)).next_nonce,
    protect_packet-IsSealed c first.0 first.1 packet sealed,
    subst
        (λ context.
          IsSealed context second (be_bytes32 (after c (first ∷ between)).next_nonce) later)
        (after-context c (first ∷ between))
        (protect_packet-IsSealed (after c (first ∷ between)) second.0 second.1 later sealed_later),
    after-nonce_bytes_ne c (first ∷ between) h (omega arith) (omega arith),
  )
