-- ===== src/Runtime/DeadlineSender/Spacing.antt =====
-- deadline_sender.rs: how far apart the sends of one run are.
use discord_voice_service.Common.{
  ℕ, ◌+◌, ◌≤◌, ◌≡◌, Bool, true, false, Option, none, some, List, [], ◌∷◌, Result, ok, All,
}
use discord_voice_service.Runtime.Error.{RuntimeError}
use discord_voice_service.Runtime.DeadlineSender.{
  DeadlineSendRecord, PreparedPlayoutCommand, DeadlineSender, Tick, send_record,
  packet_send_interval, deadline_after, expected_deadline_of, tick_once,
}

-- The time before which nothing is to follow the send.
abbrev pub end_of : DeadlineSendRecord → ℕ
end_of r = r.send_started_at + packet_send_interval r.duration_samples

-- The sends are in the order of time, each behind the end of all before it.
abbrev pub Spaced : List DeadlineSendRecord → Type 0
Spaced [] = Unit
Spaced (r ∷ rs) =
    All (λ (later : DeadlineSendRecord). end_of r ≤ later.send_started_at) rs × Spaced rs

abbrev pub EndBy : ℕ → List DeadlineSendRecord → Type 0
EndBy d = All (λ (r : DeadlineSendRecord). end_of r ≤ d)

-- No clock reading of the tick is before the deadline for which the tick waited.
abbrev pub IsTimely : DeadlineSender → Tick → Type 0
IsTimely s t = (expected_deadline_of s t ≤ t.now) × (expected_deadline_of s t ≤ t.send_started_at)

abbrev pub OnOk {ℓ} : {A : Type ℓ} → (A → Type 0) → Result RuntimeError A → Type 0
OnOk P (ok a) = P a
OnOk P _ = Unit

-- A run whose every tick is timely.
unfoldable pub IsTimelyRun : DeadlineSender → List Tick → Type 0
IsTimelyRun s [] = Unit
IsTimelyRun s (t ∷ ts) = IsTimely s t × OnOk (λ s'. IsTimelyRun s' ts) (tick_once s t)

-- The next deadline is behind all that is sent. A sender without one has sent nothing or is shut down.
abbrev HasDeadline : Bool → Option ℕ → List DeadlineSendRecord → Type 0
HasDeadline true d rs = Unit
HasDeadline false none rs = rs ≡ []
HasDeadline false (some d) rs = EndBy d rs

record IsPaced (s : DeadlineSender) : Type 0 where
  spaced : Spaced s.metrics.sent
  has_deadline : HasDeadline s.shutdown s.next_deadline s.metrics.sent

abbrev next_of : Tick → PreparedPlayoutCommand → ℕ
next_of t c =
    deadline_after t.send_started_at t.sent_at (packet_send_interval c.packet.duration_samples)

abbrev sent_of : Tick → ℕ → PreparedPlayoutCommand → DeadlineSendRecord
sent_of t d c = send_record d t.send_started_at t.sent_at c
