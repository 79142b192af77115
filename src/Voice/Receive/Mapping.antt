-- ===== src/Voice/Receive/Mapping.antt =====
-- receive.rs: the map from SSRC to user, against what the gateway has said about each SSRC.
use discord_voice_service.Common.Maybe.{or_else}
use discord_voice_service.Common.{
  ℕ, ◌≡◌, inl, inr, refl, sym, ap, subst, ◌∙◌, ◌==◌, String, Option, none, some, List, [], ◌∷◌,
  if◌then◌else◌, str_eq, arith, Option-cases,
}
use discord_voice_service.Voice.Receive.{
  ObservedVoiceSession, Speaking, apply_speaking, apply_clients_connect, apply_client_disconnect,
  record_speaker_ssrc, speaking_of, map_get, map_insert, map_remove, retain_others,
}

-- What the gateway says of speakers, in the order in which it is applied.
pub data SpeakerEvent : Type 0 where
  spoke : Speaking → SpeakerEvent
  came : List String → SpeakerEvent
  went : String → SpeakerEvent

abbrev pub apply_event : SpeakerEvent → ObservedVoiceSession → ObservedVoiceSession
apply_event (spoke speaking) s = apply_speaking speaking s
apply_event (came user_ids) s = apply_clients_connect user_ids s
apply_event (went user_id) s = apply_client_disconnect user_id s

abbrev pub apply_events : List SpeakerEvent → ObservedVoiceSession → ObservedVoiceSession
apply_events [] s = s
apply_events (e ∷ es) s = apply_events es (apply_event e s)

-- The user of one SSRC: whoever has last spoken with it and has not gone since.
abbrev without : String → Option String → Option String
without gone none = none
without gone (some user_id) = if str_eq user_id gone then none else some user_id

abbrev heard : ℕ → Option String → Speaking → Option String
heard ssrc user speaking =
    if (speaking.ssrc == ssrc)
    then (if (speaking.speaking == 0) then user else or_else speaking.user_id user)
    else user

abbrev pub speaker : ℕ → Option String → List SpeakerEvent → Option String
speaker ssrc user [] = user
speaker ssrc user (spoke speaking ∷ es) = speaker ssrc (heard ssrc user speaking) es
speaker ssrc user (came user_ids ∷ es) = speaker ssrc user es
speaker ssrc user (went gone ∷ es) = speaker ssrc (without gone user) es

-- No key stands twice.
abbrev pub AreDistinct : List (ℕ × String) → Type 0
AreDistinct [] = Unit
AreDistinct ((k, u) ∷ rest) = (map_get k rest ≡ none) × AreDistinct rest

map_get-remove :
    (k j : ℕ) (m : List (ℕ × String))
    → map_get k (map_remove j m) ≡ (if j == k then none else map_get k m)
map_get-remove k j [] = ground arith
map_get-remove k j ((i, u) ∷ rest) = ground (arith, map_get-remove k j rest)

map_get-insert :
    (k j : ℕ) (u : String) (m : List (ℕ × String))
    → map_get k (map_insert j u m) ≡ (if j == k then some u else map_get k m)
map_get-insert k j u m = ground (arith, map_get-remove k j m)

map_get-retain :
    (k : ℕ) (gone : String) (m : List (ℕ × String))
    → AreDistinct m
    → map_get k (retain_others gone m) ≡ without gone (map_get k m)
map_get-retain k gone [] h = refl
map_get-retain k gone ((i, u) ∷ rest) (fresh, h) =
    ground (arith, map_get-retain k gone rest h, fresh)

map_remove-AreDistinct :
    (j : ℕ) (m : List (ℕ × String)) → AreDistinct m → AreDistinct (map_remove j m)
map_remove-AreDistinct j [] h = tt
map_remove-AreDistinct j ((i, u) ∷ rest) (fresh, h) =
    ground (arith, map_remove-AreDistinct j rest h, map_get-remove i j rest, fresh)

retain-AreDistinct :
    (gone : String) (m : List (ℕ × String)) → AreDistinct m → AreDistinct (retain_others gone m)
retain-AreDistinct gone [] h = tt
retain-AreDistinct gone ((i, u) ∷ rest) (fresh, h) =
    ground (arith, retain-AreDistinct gone rest h, map_get-retain i gone rest h, fresh)

map_insert-AreDistinct :
    (j : ℕ) (u : String) (m : List (ℕ × String)) → AreDistinct m → AreDistinct (map_insert j u m)
map_insert-AreDistinct j u m h = ground (arith, map_get-remove j j m, map_remove-AreDistinct j m h)

apply_clients_connect-speaker_ssrcs :
    (user_ids : List String) (s : ObservedVoiceSession)
    → (apply_clients_connect user_ids s).speaker_ssrcs ≡ s.speaker_ssrcs
unfolding apply_clients_connect
apply_clients_connect-speaker_ssrcs [] s = refl
apply_clients_connect-speaker_ssrcs (user_id ∷ user_ids) s =
    apply_clients_connect-speaker_ssrcs user_ids _

speaking_of-speaker_ssrcs :
    (u : String) (speaking : Speaking) (s : ObservedVoiceSession) (ssrc : ℕ)
    → AreDistinct s.speaker_ssrcs
    → AreDistinct (speaking_of (some u) speaking s).speaker_ssrcs
      × (map_get ssrc (speaking_of (some u) speaking s).speaker_ssrcs ≡ (
          if (speaking.ssrc == ssrc)
          then (if (speaking.speaking == 0) then map_get ssrc s.speaker_ssrcs else some u)
          else map_get ssrc s.speaker_ssrcs))
unfolding record_speaker_ssrc
speaking_of-speaker_ssrcs u speaking s ssrc h = ground (
  arith,
  map_get-insert ssrc speaking.ssrc u s.speaker_ssrcs,
  map_insert-AreDistinct speaking.ssrc u s.speaker_ssrcs h,
)

apply_speaking-speaker_ssrcs :
    (speaking : Speaking) (s : ObservedVoiceSession) (ssrc : ℕ)
    → AreDistinct s.speaker_ssrcs
    → AreDistinct (apply_speaking speaking s).speaker_ssrcs
      × (map_get ssrc (apply_speaking speaking s).speaker_ssrcs
          ≡ heard ssrc (map_get ssrc s.speaker_ssrcs) speaking)
unfolding apply_speaking
apply_speaking-speaker_ssrcs speaking s ssrc h = elim (Option-cases speaking.user_id) [
  | inl none_given ↦ elim (Option-cases (map_get speaking.ssrc s.speaker_ssrcs)) [
    | inl unknown ↦ ground arith
    | inr (u, known) ↦ ground (arith, speaking_of-speaker_ssrcs u speaking s ssrc h)
  ]
  | inr (u, given) ↦ ground (arith, speaking_of-speaker_ssrcs u speaking s ssrc h)
]

-- However the session hears of users that speak, come and go, the user that an SSRC is mapped to is
-- the one that has last spoken with it and has not gone since (a message without a user counts for the
-- user of before), where the map has each SSRC once at the start.
pub map_get-apply_events :
    (es : List SpeakerEvent) (s : ObservedVoiceSession) (ssrc : ℕ)
    → AreDistinct s.speaker_ssrcs
    → map_get ssrc (apply_events es s).speaker_ssrcs
      ≡ speaker ssrc (map_get ssrc s.speaker_ssrcs) es
unfolding apply_client_disconnect
map_get-apply_events [] s ssrc h = refl
map_get-apply_events (spoke speaking ∷ es) s ssrc h =
    let (distinct, now) = apply_speaking-speaker_ssrcs speaking s ssrc h in
    map_get-apply_events es (apply_speaking speaking s) ssrc distinct
    ∙ ap (λ user. speaker ssrc user es) now
map_get-apply_events (came user_ids ∷ es) s ssrc h =
    let same = apply_clients_connect-speaker_ssrcs user_ids s in
    map_get-apply_events es (apply_clients_connect user_ids s) ssrc (subst AreDistinct (sym same) h)
    ∙ ap (λ m. speaker ssrc (map_get ssrc m) es) same
map_get-apply_events (went gone ∷ es) s ssrc h =
    map_get-apply_events es (apply_client_disconnect gone s) ssrc
      (retain-AreDistinct gone s.speaker_ssrcs h)
    ∙ ap (λ user. speaker ssrc user es) (map_get-retain ssrc gone s.speaker_ssrcs h)
