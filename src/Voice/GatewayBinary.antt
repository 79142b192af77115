-- ===== src/Voice/GatewayBinary.antt =====
-- crates/discord-voice-service-voice/src/protocol.rs, the binary messages of the voice gateway, and the
-- acknowledged sequence number of its text messages.
pub mod RoundTrip
use discord_voice_service.Common.{
  ℕ, ◌*◌, ◌+◌, Option, none, some, List, [], ◌∷◌, ◌++◌, Bool, ltb, ◌==◌, if◌then◌else◌, length,
  drop, Result, ok, err, panic, ◌>>=◌, ◌>>◌, fail_if, index, slice_from, ◌^◌,
}
use discord_voice_service.Common.Bytes.{Bytes, from_be16}
use discord_voice_service.Voice.Wire.{WireError, unpack_commit_welcome}
use discord_voice_service.Voice.Error.{VoiceError, invalid_state, unsupported_binary_gateway_op}

pub data DaveMlsProposalsOperation : Type 0 where
  append : DaveMlsProposalsOperation
  revoke : DaveMlsProposalsOperation

-- The events of `VoiceGatewayEvent` that binary messages carry.
pub data BinaryEvent : Type 0 where
  external_sender_package : Bytes → BinaryEvent
  proposals : DaveMlsProposalsOperation → Bytes → BinaryEvent
  prepare_commit_transition : ℕ → Bytes → BinaryEvent
  welcome : ℕ → Bytes → BinaryEvent

pub record BinaryPayload : Type 0 where
  pub event : BinaryEvent
  pub seq : Option ℕ

unfoldable pub parse_dave_proposals_operation : ℕ → Result VoiceError DaveMlsProposalsOperation
parse_dave_proposals_operation value =
    if value == 0
    then ok append
    else if value == 1
    then ok revoke
    else err (invalid_state "voice dave proposals operation invalid")

unfoldable pub parse_proposals : Bytes → Result VoiceError BinaryEvent
parse_proposals bytes = do
  fail_if (ltb (length bytes) 4) (invalid_state "voice dave proposals payload too short")
  value ← index bytes 3
  operation ← parse_dave_proposals_operation value
  rest ← slice_from bytes 4
  ok (proposals operation rest)

-- The part that two of the messages share: a transition and what follows it.
unfoldable pub parse_transition :
    VoiceError → (ℕ → Bytes → BinaryEvent) → Bytes → Result VoiceError BinaryEvent
parse_transition too_short make bytes = do
  fail_if (ltb (length bytes) 5) too_short
  hi ← index bytes 3
  lo ← index bytes 4
  rest ← slice_from bytes 5
  ok (make (from_be16 hi lo) rest)

parse_external_sender : Bytes → Result VoiceError BinaryEvent
parse_external_sender bytes = do rest ← slice_from bytes 3; ok (external_sender_package rest)

unfoldable pub parse_event : ℕ → Bytes → Result VoiceError BinaryEvent
unfolding parse_external_sender
parse_event op bytes =
    if op == 25
    then parse_external_sender bytes
    else if op == 27
    then parse_proposals bytes
    else if op == 29
    then parse_transition (invalid_state "voice dave prepare commit transition payload too short")
        prepare_commit_transition bytes
    else if op == 30
    then parse_transition (invalid_state "voice dave welcome payload too short") welcome bytes
    else err (unsupported_binary_gateway_op op)

unfoldable pub parse_gateway_binary_message : Bytes → Result VoiceError BinaryPayload
parse_gateway_binary_message bytes = do
  fail_if (ltb (length bytes) 3) (invalid_state "voice gateway binary payload too short")
  hi ← index bytes 0
  lo ← index bytes 1
  op ← index bytes 2
  event ← parse_event op bytes
  ok (record { event = event; seq = some (from_be16 hi lo) })

unfoldable pub dave_mls_key_package_payload : Bytes → Bytes
dave_mls_key_package_payload key_package = 26 ∷ key_package

expect_framing : Result WireError (Bytes × Bytes) → Result VoiceError Bytes
expect_framing (ok (commit, welcome_message)) = ok (28 ∷ (commit ++ welcome_message))
expect_framing (err e) = panic
expect_framing panic = panic

-- The framing is the one that the program makes itself, and is expected to be valid.
unfoldable pub dave_mls_commit_welcome_payload : Bytes → Result VoiceError Bytes
unfolding expect_framing
dave_mls_commit_welcome_payload commit_welcome =
    expect_framing (unpack_commit_welcome commit_welcome)
