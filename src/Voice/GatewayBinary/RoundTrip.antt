-- ===== src/Voice/GatewayBinary/RoundTrip.antt =====
-- protocol.rs: the binary messages against the layout of the DAVE protocol.
use discord_voice_service.Common.{
  ℕ, ◌<◌, ◌≡◌, refl, ◌^◌, ap₂, ◌/◌, ◌%◌, Option, some, [], ◌∷◌, ◌++◌, length, Result, ok, err,
  panic, ◌>>=◌, Ensures, le→ltb_false, arith,
}
use discord_voice_service.Common.Words.{IsU16}
use discord_voice_service.Common.Bytes.{Bytes, AreBytes, be_bytes16, from_be16}
use discord_voice_service.Common.Maybe.{unwrap_or}
use discord_voice_service.Voice.Wire.{pack_commit_welcome}
use discord_voice_service.Voice.Wire.RoundTrip.{unpack-pack}
use discord_voice_service.Voice.Error.{VoiceError}
use discord_voice_service.Voice.GatewayBinary.{
  DaveMlsProposalsOperation, append, revoke, BinaryEvent, external_sender_package, proposals,
  prepare_commit_transition, welcome, BinaryPayload, parse_dave_proposals_operation,
  parse_proposals, parse_transition, parse_external_sender, dave_mls_commit_welcome_payload,
  expect_framing, parse_event, parse_gateway_binary_message,
}

abbrev pub operation_code : DaveMlsProposalsOperation → ℕ
operation_code append = 0
operation_code revoke = 1

-- The layout of an event after the sequence number.
abbrev pub event_bytes : BinaryEvent → Bytes
event_bytes (external_sender_package bytes) = 25 ∷ bytes
event_bytes (proposals operation bytes) = 27 ∷ operation_code operation ∷ bytes
event_bytes (prepare_commit_transition id bytes) = 29 ∷ (be_bytes16 id ++ bytes)
event_bytes (welcome id bytes) = 30 ∷ (be_bytes16 id ++ bytes)

-- Transition ids are words of 16 bits.
abbrev pub HasWord : BinaryEvent → Type 0
HasWord (external_sender_package bytes) = Unit
HasWord (proposals operation bytes) = Unit
HasWord (prepare_commit_transition id bytes) = IsU16 id
HasWord (welcome id bytes) = IsU16 id

-- Each event with a sequence number, laid out as the protocol says, is parsed to that event and number.
pub parse_gateway_binary_message-event_bytes :
    (seq : ℕ) (event : BinaryEvent)
    → IsU16 seq
    → HasWord event
    → parse_gateway_binary_message (be_bytes16 seq ++ event_bytes event)
      ≡ ok (record { event = event; seq = some seq })
unfolding parse_gateway_binary_message
parse_gateway_binary_message-event_bytes seq (external_sender_package bytes) s w =
    unfold parse_event parse_external_sender in ground arith
parse_gateway_binary_message-event_bytes seq (proposals append bytes) s w =
    unfold parse_event parse_proposals parse_dave_proposals_operation in ground arith
parse_gateway_binary_message-event_bytes seq (proposals revoke bytes) s w =
    unfold parse_event parse_proposals parse_dave_proposals_operation in ground arith
parse_gateway_binary_message-event_bytes seq (prepare_commit_transition id bytes) s w =
    unfold parse_event parse_transition in ground arith
parse_gateway_binary_message-event_bytes seq (welcome id bytes) s w =
    unfold parse_event parse_transition in ground arith

-- An event that is parsed has the layout of the bytes that it is parsed from.
parse_event-Ensures :
    (a b op : ℕ) (rest : Bytes)
    → AreBytes rest
    → Ensures (λ e. op ∷ rest ≡ event_bytes e) (parse_event op (a ∷ b ∷ op ∷ rest))
unfolding parse_event parse_external_sender parse_proposals parse_transition
    parse_dave_proposals_operation
parse_event-Ensures a b op [] h = ground arith
parse_event-Ensures a b op (x ∷ []) h = ground arith
parse_event-Ensures a b op (x ∷ y ∷ rest) h = ground arith

-- What is parsed has the layout of the message that it is parsed from, and nothing panics.
pub parse_gateway_binary_message-Ensures :
    (bytes : Bytes)
    → AreBytes bytes
    → Ensures
        (λ (p : BinaryPayload).
          (seq : ℕ) × (p.seq ≡ some seq) × (bytes ≡ be_bytes16 seq ++ event_bytes p.event))
        (parse_gateway_binary_message bytes)
unfolding parse_gateway_binary_message
parse_gateway_binary_message-Ensures [] h = tt
parse_gateway_binary_message-Ensures (a ∷ []) h = tt
parse_gateway_binary_message-Ensures (a ∷ b ∷ []) h = tt
parse_gateway_binary_message-Ensures (a ∷ b ∷ op ∷ rest) (ha, (hb, (ho, h))) =
    rw (le→ltb_false (length (a ∷ b ∷ op ∷ rest)) 3 (omega arith))
      (with_seq (parse_event op (a ∷ b ∷ op ∷ rest)) (parse_event-Ensures a b op rest h))
  where
    a_of : a ≡ from_be16 a b / 256 % 256
    a_of = omega arith

    b_of : b ≡ from_be16 a b % 256
    b_of = omega arith

    with_seq :
        (r : Result VoiceError BinaryEvent)
        → Ensures (λ e. op ∷ rest ≡ event_bytes e) r
        → Ensures
            (λ (p : BinaryPayload).
              (seq : ℕ) × (p.seq ≡ some seq)
              × (a ∷ b ∷ op ∷ rest ≡ be_bytes16 seq ++ event_bytes p.event))
            (r >>= λ event. ok (record { event = event; seq = some (from_be16 a b) }))
    with_seq (ok event) e =
        (from_be16 a b, refl, ap₂ (λ x y. x ∷ y) a_of (ap₂ (λ x y. x ∷ y) b_of e))
    with_seq (err x) e = tt
    with_seq panic e = e

-- The payload of a commit and a welcome that the program has packed is the two, one behind the other,
-- under the code 28: the packed form is always as expected, and nothing panics.
pub dave_mls_commit_welcome_payload-pack :
    (commit : Bytes) (message : Option Bytes)
    → length commit < 2 ^ 32
    → length (unwrap_or message []) < 2 ^ 32
    → dave_mls_commit_welcome_payload (pack_commit_welcome commit message)
      ≡ ok (28 ∷ (commit ++ unwrap_or message []))
unfolding dave_mls_commit_welcome_payload expect_framing
dave_mls_commit_welcome_payload-pack commit message hc hm =
    rw (unpack-pack commit message hc hm) refl
