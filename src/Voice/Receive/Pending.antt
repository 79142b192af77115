-- ===== src/Voice/Receive/Pending.antt =====
-- receive.rs: the packets that wait for a speaker or for decryption, tried again after a message of the
-- gateway (`try_decode_pending_audio_frame`).
use discord_voice_service.Common.{
  ℕ, ◌≡◌, inl, inr, refl, sym, ap, ◌∙◌, ◌==◌, ◌&&◌, Bool, true, false, String, Option, none, some,
  List, [], ◌∷◌, if◌then◌else◌, Result, ok, err, panic, arith, Bool-cases, Option-cases,
}
use discord_voice_service.Voice.Error.{invalid_state}
use discord_voice_service.Voice.Crypto.{EncryptionMode}
use discord_voice_service.Voice.Protection.{Aead}
use discord_voice_service.Voice.Receive.{
  ObservedAudioFrame, ObservedVoiceSession, PendingPacket, DecodeAudioPacketError, not_ready, fatal,
  Received, decode_audio_packet, is_other, map_get, map_insert, map_remove,
}
use discord_voice_service.Voice.Receive.Attribution.{IsOf, decode_audio_packet-IsOf}

-- `keys().copied()`
abbrev pub keys {ℓ} : {A : Type ℓ} → List (ℕ × A) → List ℕ
keys [] = []
keys ((k, a) ∷ rest) = k ∷ keys rest

abbrev forget : ℕ → ObservedVoiceSession → ObservedVoiceSession
forget ssrc s = record s { pending_packets = map_remove ssrc s.pending_packets }

abbrev keep : ℕ → PendingPacket → ObservedVoiceSession → ObservedVoiceSession
keep ssrc pending s = record s { pending_packets = map_insert ssrc pending s.pending_packets }

-- The arms of the match; `next` goes on with the other SSRCs.
abbrev pub on_decoded :
    ℕ
    → PendingPacket
    → ObservedVoiceSession
    → (ObservedVoiceSession → Received)
    → Result DecodeAudioPacketError ObservedAudioFrame
    → Received
on_decoded ssrc pending s next (ok frame) = (ok (some frame), s)
on_decoded ssrc pending s next (err not_ready) = next (keep ssrc pending s)
on_decoded ssrc pending s next (err (fatal e)) = (err e, s)
on_decoded ssrc pending s next panic = (panic, s)

module _ (ciphers : EncryptionMode → Aead) (expected : Option String) where
  abbrev pub on_pending :
      ℕ
      → String
      → ObservedVoiceSession
      → (ObservedVoiceSession → Received)
      → Option PendingPacket
      → Received
  on_pending ssrc user_id s next none = (err (invalid_state "voice pending packet missing"), s)
  on_pending ssrc user_id s next (some p) =
      if is_other expected user_id
      then next (forget ssrc s)
      else on_decoded ssrc p (forget ssrc s) next
          (decode_audio_packet ciphers (forget ssrc s) p.packet p.header p.received_at user_id)

  abbrev pub on_user :
      ℕ → ObservedVoiceSession → (ObservedVoiceSession → Received) → Option String → Received
  on_user ssrc s next none = next s
  on_user ssrc s next (some user_id) =
      on_pending ssrc user_id s next (map_get ssrc s.pending_packets)

  unfoldable pub try_ssrcs : List ℕ → ObservedVoiceSession → Received
  try_ssrcs [] s = (ok none, s)
  try_ssrcs (ssrc ∷ ssrcs) s =
      let next = try_ssrcs ssrcs in on_user ssrc s next (map_get ssrc s.speaker_ssrcs)

  unfoldable pub try_decode_pending_audio_frame : ObservedVoiceSession → Received
  try_decode_pending_audio_frame s = try_ssrcs (keys s.pending_packets) s

-- Each packet waits under the SSRC of its header.
abbrev pub are_keyed : List (ℕ × PendingPacket) → Bool
are_keyed [] = true
are_keyed ((ssrc, pending) ∷ rest) = (pending.header.ssrc == ssrc) && are_keyed rest

-- A frame that comes out is for the user that its SSRC is mapped to, who is the expected one if one is
-- expected, and nothing waits under its SSRC any more.
abbrev pub Delivered : Option String → Received → Type 0
Delivered expected (ok (some frame), s) =
    (map_get frame.ssrc s.speaker_ssrcs ≡ some frame.user_id)
    × (is_other expected frame.user_id ≡ false)
    × (map_get frame.ssrc s.pending_packets ≡ none)
    × (are_keyed s.pending_packets ≡ true)
Delivered expected (_, s) = are_keyed s.pending_packets ≡ true

map_get-remove_same {ℓ} :
    {A : Type ℓ} (k : ℕ) (m : List (ℕ × A)) → map_get k (map_remove k m) ≡ none
map_get-remove_same k [] = refl
map_get-remove_same k ((i, a) ∷ rest) = ground (arith, map_get-remove_same k rest)

pub are_keyed-remove :
    (k : ℕ) (m : List (ℕ × PendingPacket)) → are_keyed m ≡ true → are_keyed (map_remove k m) ≡ true
are_keyed-remove k [] h = refl
are_keyed-remove k ((i, p) ∷ rest) h = ground (arith, are_keyed-remove k rest)

map_get-keyed :
    (k : ℕ) (m : List (ℕ × PendingPacket)) (p : PendingPacket)
    → are_keyed m ≡ true
    → map_get k m ≡ some p
    → p.header.ssrc ≡ k
map_get-keyed k [] p h found = ground arith
map_get-keyed k ((i, q) ∷ rest) p h found = ground (arith, map_get-keyed k rest p)

module _ (ciphers : EncryptionMode → Aead) (expected : Option String) where
  on_decoded-Delivered :
      (ssrc : ℕ) (p : PendingPacket) (s : ObservedVoiceSession)
      (next : ObservedVoiceSession → Received) (user_id : String)
      (result : Result DecodeAudioPacketError ObservedAudioFrame)
      → p.header.ssrc ≡ ssrc
      → map_get ssrc s.speaker_ssrcs ≡ some user_id
      → is_other expected user_id ≡ false
      → are_keyed s.pending_packets ≡ true
      → ((frame : ObservedAudioFrame) → result ≡ ok frame → IsOf user_id p.header frame)
      → ((s' : ObservedVoiceSession)
          → are_keyed s'.pending_packets ≡ true
          → Delivered expected (next s'))
      → Delivered expected (on_decoded ssrc p (forget ssrc s) next result)
  on_decoded-Delivered ssrc p s next user_id (ok frame) own mapped wanted h is_of ih =
      let (same, same_ssrc, _, _) = is_of frame refl in
      let at : frame.ssrc ≡ ssrc = same_ssrc ∙ own in
      (
        ap (λ k. map_get k s.speaker_ssrcs) at ∙ mapped ∙ ap some (sym same),
        ap (is_other expected) same ∙ wanted,
        ap (λ k. map_get k (map_remove ssrc s.pending_packets)) at
            ∙ map_get-remove_same ssrc s.pending_packets,
        are_keyed-remove ssrc s.pending_packets h,
      )
  on_decoded-Delivered ssrc p s next user_id (err not_ready) own mapped wanted h is_of ih =
      ih (keep ssrc p (forget ssrc s)) (
        ground (
          arith,
          are_keyed-remove ssrc (map_remove ssrc s.pending_packets),
          are_keyed-remove ssrc s.pending_packets,
        ))
  on_decoded-Delivered ssrc p s next user_id (err (fatal e)) own mapped wanted h is_of ih =
      are_keyed-remove ssrc s.pending_packets h
  on_decoded-Delivered ssrc p s next user_id panic own mapped wanted h is_of ih =
      are_keyed-remove ssrc s.pending_packets h

  on_pending-Delivered :
      (ssrc : ℕ) (s : ObservedVoiceSession) (next : ObservedVoiceSession → Received)
      (user_id : String) (pending : Option PendingPacket)
      → map_get ssrc s.pending_packets ≡ pending
      → map_get ssrc s.speaker_ssrcs ≡ some user_id
      → are_keyed s.pending_packets ≡ true
      → ((s' : ObservedVoiceSession)
          → are_keyed s'.pending_packets ≡ true
          → Delivered expected (next s'))
      → Delivered expected (on_pending ciphers expected ssrc user_id s next pending)
  on_pending-Delivered ssrc s next user_id none found mapped h ih = h
  on_pending-Delivered ssrc s next user_id (some p) found mapped h ih =
      elim (Bool-cases (is_other expected user_id)) [
        | inl other ↦ rw other (ih (forget ssrc s) (are_keyed-remove ssrc s.pending_packets h))
        | inr wanted ↦ rw wanted (
            on_decoded-Delivered ssrc p s next user_id
              (decode_audio_packet ciphers (forget ssrc s) p.packet p.header p.received_at user_id)
              (map_get-keyed ssrc s.pending_packets p h found) mapped wanted h
              (decode_audio_packet-IsOf ciphers (forget ssrc s) p.packet p.header p.received_at
                user_id)
              ih)
      ]

  try_ssrcs-Delivered :
      (ssrcs : List ℕ) (s : ObservedVoiceSession)
      → are_keyed s.pending_packets ≡ true
      → Delivered expected (try_ssrcs ciphers expected ssrcs s)
  unfolding try_ssrcs
  try_ssrcs-Delivered [] s h = h
  try_ssrcs-Delivered (ssrc ∷ ssrcs) s h =
      let ih = try_ssrcs-Delivered ssrcs in
      elim (Option-cases (map_get ssrc s.speaker_ssrcs)) [
        | inl unmapped ↦ rw unmapped (ih s h)
        | inr (user_id, mapped) ↦ rw mapped (
            on_pending-Delivered ssrc s (try_ssrcs ciphers expected ssrcs) user_id
              (map_get ssrc s.pending_packets) refl mapped h ih)
      ]

  -- Where each packet waits under the SSRC of its header, the retry of the waiting packets keeps that so
  -- in every outcome. A frame that it gives out is for the user to whom its SSRC is mapped, who is the
  -- expected one if one is expected, and no packet of this SSRC waits any more.
  pub try_decode_pending_audio_frame-Delivered :
      (s : ObservedVoiceSession)
      → are_keyed s.pending_packets ≡ true
      → Delivered expected (try_decode_pending_audio_frame ciphers expected s)
  unfolding try_decode_pending_audio_frame
  try_decode_pending_audio_frame-Delivered s h = try_ssrcs-Delivered (keys s.pending_packets) s h
