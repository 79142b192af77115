-- ===== src/Voice/Receive.antt =====
-- crates/discord-voice-service-voice/src/receive.rs: whose audio a received packet carries. A map and a
-- set are lists without an order of their own; time is a number.
pub mod Attribution
pub mod Mapping
pub mod Pending
pub mod Waiting
pub mod Examples
use discord_voice_service.Common.Maybe.{or_else}
use discord_voice_service.Common.{
  ℕ, Bool, true, false, not, ◌&&◌, ◌||◌, String, Option, none, some, List, [], ◌∷◌, ◌++◌, leb, ◌==◌,
  if◌then◌else◌, str_eq, get_elem?, Result, ok, err, panic, ◌>>=◌, ◌>>◌, map_err,
}
use discord_voice_service.Common.Bytes.{Bytes}
use discord_voice_service.Voice.Error.{VoiceError, invalid_state, is_packet_unprotect_failure}
use discord_voice_service.Voice.Rtp.{RtpHeader, parse_rtp_header}
use discord_voice_service.Voice.Crypto.{EncryptionMode}
use discord_voice_service.Voice.Protection.{Aead, ProtectionContext, unprotect_packet}
use discord_voice_service.Voice.Udp.{opus_silence_frame}

pub record ObservedAudioFrame : Type 0 where
  pub user_id : String
  pub ssrc : ℕ
  pub sequence : ℕ
  pub timestamp : ℕ
  pub received_at : ℕ
  pub payload : Bytes

pub record ObservedSpeakingState : Type 0 where
  pub user_id : String
  pub ssrc : ℕ
  pub speaking : ℕ

pub record PendingPacket : Type 0 where
  pub header : RtpHeader
  pub packet : Bytes
  pub received_at : ℕ

-- `own_user_id` is that of the voice context. `dave` decrypts what a user has sent, where end-to-end
-- encryption is on.
pub record ObservedVoiceSession : Type 0 where
  pub own_user_id : String
  pub protection : Option ProtectionContext
  pub dave : Option (String → Bytes → Option Bytes)
  pub dave_recognized_user_ids : List String
  pub speaker_ssrcs : List (ℕ × String)
  pub pending_speaking_states : List ObservedSpeakingState
  pub pending_disconnects : List String
  pub remote_speaker_candidates : List String
  pub pending_packets : List (ℕ × PendingPacket)

-- protocol.rs
pub record Speaking : Type 0 where
  pub speaking : ℕ
  pub ssrc : ℕ
  pub user_id : Option String

abbrev pub map_get {ℓ} : {A : Type ℓ} → ℕ → List (ℕ × A) → Option A
map_get key [] = none
map_get key ((k, a) ∷ rest) = if k == key then some a else map_get key rest

abbrev pub map_remove {ℓ} : {A : Type ℓ} → ℕ → List (ℕ × A) → List (ℕ × A)
map_remove key [] = []
map_remove key ((k, a) ∷ rest) =
    if k == key then map_remove key rest else (k, a) ∷ map_remove key rest

abbrev pub map_insert {ℓ} : {A : Type ℓ} → ℕ → A → List (ℕ × A) → List (ℕ × A)
map_insert key a m = (key, a) ∷ map_remove key m

abbrev pub set_has : String → List String → Bool
set_has x [] = false
set_has x (y ∷ ys) = str_eq y x || set_has x ys

abbrev pub set_remove : String → List String → List String
set_remove x [] = []
set_remove x (y ∷ ys) = if str_eq y x then set_remove x ys else y ∷ set_remove x ys

abbrev pub set_insert : String → List String → List String
set_insert x ys = if set_has x ys then ys else x ∷ ys

-- `retain(|_, user_id| user_id != &gone)`
abbrev pub retain_others : String → List (ℕ × String) → List (ℕ × String)
retain_others gone [] = []
retain_others gone ((k, u) ∷ rest) =
    if str_eq u gone then retain_others gone rest else (k, u) ∷ retain_others gone rest

-- `values().any(|mapped| mapped == candidate)`
abbrev pub is_mapped : String → List (ℕ × String) → Bool
is_mapped user_id [] = false
is_mapped user_id ((k, u) ∷ rest) = str_eq u user_id || is_mapped user_id rest

unfoldable pub record_speaker_ssrc : String → ℕ → ObservedVoiceSession → ObservedVoiceSession
record_speaker_ssrc user_id ssrc s = record s {
  speaker_ssrcs = map_insert ssrc user_id s.speaker_ssrcs;
}

abbrev pub has_some {ℓ} : {A : Type ℓ} → Option A → Bool
has_some none = false
has_some (some a) = true

abbrev pub speaking_of : Option String → Speaking → ObservedVoiceSession → ObservedVoiceSession
speaking_of none speaking s = s
speaking_of (some user_id) speaking s =
    let s = if speaking.speaking == 0 then s else record_speaker_ssrc user_id speaking.ssrc s in
    record s {
      pending_speaking_states =
          s.pending_speaking_states
          ++ (record { user_id = user_id; ssrc = speaking.ssrc; speaking = speaking.speaking }
              ∷ []);
    }

unfoldable pub apply_speaking : Speaking → ObservedVoiceSession → ObservedVoiceSession
apply_speaking speaking s =
    speaking_of (or_else speaking.user_id (map_get speaking.ssrc s.speaker_ssrcs)) speaking s

unfoldable pub apply_clients_connect : List String → ObservedVoiceSession → ObservedVoiceSession
apply_clients_connect [] s = s
apply_clients_connect (user_id ∷ user_ids) s = apply_clients_connect user_ids (record s {
  remote_speaker_candidates =
      if str_eq user_id s.own_user_id
      then s.remote_speaker_candidates
      else set_insert user_id s.remote_speaker_candidates;
  dave_recognized_user_ids = set_insert user_id s.dave_recognized_user_ids;
})

unfoldable pub apply_client_disconnect : String → ObservedVoiceSession → ObservedVoiceSession
apply_client_disconnect user_id s = record s {
  dave_recognized_user_ids = set_remove user_id s.dave_recognized_user_ids;
  remote_speaker_candidates = set_remove user_id s.remote_speaker_candidates;
  speaker_ssrcs = retain_others user_id s.speaker_ssrcs;
  pending_disconnects = s.pending_disconnects ++ (user_id ∷ []);
}

-- `expected.is_some_and(|expected| user_id != expected)`
abbrev pub is_other : Option String → String → Bool
is_other none user_id = false
is_other (some expected) user_id = not (str_eq user_id expected)

abbrev pub inferred : Option String → List String → List (ℕ × String) → Option String
inferred expected (candidate ∷ []) ssrcs =
    if is_other expected candidate || is_mapped candidate ssrcs then none else some candidate
inferred expected _ ssrcs = none

unfoldable pub infer_single_remote_speaker : Option String → ObservedVoiceSession → Option String
infer_single_remote_speaker expected s =
    inferred expected s.remote_speaker_candidates s.speaker_ssrcs

abbrev is_rtcp_type : Option ℕ → Bool
is_rtcp_type none = false
is_rtcp_type (some packet_type) = leb 192 packet_type && leb packet_type 223

unfoldable pub is_rtcp_packet : Bytes → Bool
is_rtcp_packet packet = is_rtcp_type (get_elem? packet 1)

pub data DecodeAudioPacketError : Type 0 where
  not_ready : DecodeAudioPacketError
  fatal : VoiceError → DecodeAudioPacketError

abbrev same_bytes : Bytes → Bytes → Bool
same_bytes [] [] = true
same_bytes (x ∷ xs) (y ∷ ys) = (x == y) && same_bytes xs ys
same_bytes _ _ = false

abbrev or_not_ready : Option Bytes → Result DecodeAudioPacketError Bytes
or_not_ready none = err not_ready
or_not_ready (some plain) = ok plain

unfoldable pub decrypt_audio_payload :
    Option (String → Bytes → Option Bytes) → String → Bytes → Result DecodeAudioPacketError Bytes
decrypt_audio_payload none user_id payload = ok payload
decrypt_audio_payload (some decrypt) user_id payload =
    if same_bytes payload opus_silence_frame
    then ok payload
    else or_not_ready (decrypt user_id payload)

abbrev pub Received : Type 0
Received = Result VoiceError (Option ObservedAudioFrame) × ObservedVoiceSession

abbrev pub buffered : RtpHeader → Bytes → ℕ → ObservedVoiceSession → Received
buffered header packet received_at s = (
  ok none,
  record s {
    pending_packets =
        map_insert header.ssrc
          (record { header = header; packet = packet; received_at = received_at })
          s.pending_packets;
  },
)

module _ (ciphers : EncryptionMode → Aead) where
  unprotected : Option ProtectionContext → Bytes → Result VoiceError (RtpHeader × Bytes)
  unprotected none packet = err (invalid_state "voice protection unavailable")
  unprotected (some protection) packet = unprotect_packet ciphers protection packet

  unfoldable pub decode_audio_packet :
      ObservedVoiceSession
      → Bytes
      → RtpHeader
      → ℕ
      → String
      → Result DecodeAudioPacketError ObservedAudioFrame
  unfolding unprotected
  decode_audio_packet s packet header received_at user_id = do
    (inner, payload) ← map_err fatal (unprotected s.protection packet)
    payload ← decrypt_audio_payload s.dave user_id payload
    ok (record {
      user_id = user_id;
      ssrc = header.ssrc;
      sequence = header.sequence;
      timestamp = header.timestamp;
      received_at = received_at;
      payload = payload;
    })

  abbrev pub decoded :
      RtpHeader
      → Bytes
      → ℕ
      → ObservedVoiceSession
      → Result DecodeAudioPacketError ObservedAudioFrame
      → Received
  decoded header packet received_at s (ok frame) = (ok (some frame), s)
  decoded header packet received_at s (err not_ready) = buffered header packet received_at s
  decoded header packet received_at s (err (fatal e)) = (err e, s)
  decoded header packet received_at s panic = (panic, s)

  -- The last part of `process_audio_packet`, with the user that the SSRC is mapped to.
  abbrev pub from_mapped :
      Option String → RtpHeader → Bytes → ℕ → ObservedVoiceSession → Option String → Received
  from_mapped expected header packet received_at s none =
      (err (invalid_state "voice speaker mapping missing"), s)
  from_mapped expected header packet received_at s (some user_id) =
      if is_other expected user_id
      then (ok none, s)
      else decoded header packet received_at s
          (decode_audio_packet s packet header received_at user_id)

  abbrev pub known_speaker : Option String → RtpHeader → Bytes → ℕ → ObservedVoiceSession → Received
  known_speaker expected header packet received_at s =
      let s = record s { pending_packets = map_remove header.ssrc s.pending_packets } in
      from_mapped expected header packet received_at s (map_get header.ssrc s.speaker_ssrcs)

  -- A packet of an SSRC that no user is mapped to, after the attempt with the expected user.
  abbrev pub infer_or_buffer :
      Option String → RtpHeader → Bytes → ℕ → ObservedVoiceSession → Option String → Received
  infer_or_buffer expected header packet received_at s none = buffered header packet received_at s
  infer_or_buffer expected header packet received_at s (some user_id) =
      known_speaker expected header packet received_at (record_speaker_ssrc user_id header.ssrc s)

  abbrev pub after_attempt :
      String
      → RtpHeader
      → Bytes
      → ℕ
      → ObservedVoiceSession
      → Result DecodeAudioPacketError ObservedAudioFrame
      → Received
  after_attempt expected header packet received_at s (ok frame) =
      (ok (some frame), record_speaker_ssrc expected header.ssrc s)
  after_attempt expected header packet received_at s (err not_ready) =
      infer_or_buffer (some expected) header packet received_at s
        (infer_single_remote_speaker (some expected) s)
  after_attempt expected header packet received_at s (err (fatal e)) =
      if is_packet_unprotect_failure e then (ok none, s) else (err e, s)
  after_attempt expected header packet received_at s panic = (panic, s)

  -- With the expected user, and whether end-to-end encryption is on.
  abbrev pub unknown_speaker :
      Option String → Bool → RtpHeader → Bytes → ℕ → ObservedVoiceSession → Received
  unknown_speaker (some expected) true header packet received_at s =
      after_attempt expected header packet received_at s
        (decode_audio_packet s packet header received_at expected)
  unknown_speaker expected _ header packet received_at s =
      infer_or_buffer expected header packet received_at s (infer_single_remote_speaker expected s)

  abbrev pub by_header :
      Option String → Bytes → ℕ → ObservedVoiceSession → Result VoiceError RtpHeader → Received
  by_header expected packet received_at s (ok header) =
      if has_some (map_get header.ssrc s.speaker_ssrcs)
      then known_speaker expected header packet received_at s
      else unknown_speaker expected (has_some s.dave) header packet received_at s
  by_header expected packet received_at s (err e) = (err e, s)
  by_header expected packet received_at s panic = (panic, s)

  unfoldable pub process_audio_packet : Bytes → ℕ → Option String → ObservedVoiceSession → Received
  process_audio_packet packet received_at expected s =
      if is_rtcp_packet packet
      then (ok none, s)
      else by_header expected packet received_at s (parse_rtp_header packet)
