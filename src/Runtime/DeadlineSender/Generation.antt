-- ===== src/Runtime/DeadlineSender/Generation.antt =====
-- deadline_sender.rs: which packets of a run are sent, and which are dropped and reported.
use discord_voice_service.Common.{
  ℕ, ◌+◌, ◌≡◌, ◌∙◌, refl, ap, Bool, true, false, ◌&&◌, ◌==◌, Option, none, some, List, [], ◌∷◌,
  ◌++◌, append-nil, append_assoc, if◌then◌else◌, Result, ok, ◌>>=◌, Bool-cases, inl, inr, if_true,
  if_false, String,
}
use discord_voice_service.Runtime.Error.{RuntimeError}
use discord_voice_service.Voice.Udp.{PreparedVoicePacket}
use discord_voice_service.Runtime.DeadlineSender.{
  DeadlineDropRecord, PreparedPlayoutCommand, DeadlineSender, Tick, Received, received, empty,
  disconnected, drop_stale, send_command, on_command, tick_once, run, from_command, offer,
  expected_deadline_of,
}

-- The sink and the channels of records take what they are given.
abbrev pub IsAnswered : Tick → Type 0
IsAnswered t = (t.sink_error ≡ none) × (t.drop_accepted ≡ true) × (t.record_accepted ≡ true)

abbrev pub AreAnswered : List Tick → Type 0
AreAnswered [] = Unit
AreAnswered (t ∷ ts) = IsAnswered t × AreAnswered ts

abbrev is_fresh : Tick → PreparedPlayoutCommand → Bool
is_fresh t command = command.generation == t.active_generation

-- The packets of the commands of the active generation, up to where the channel is disconnected.
pub fresh_from : Tick → Received → List PreparedVoicePacket → List PreparedVoicePacket
fresh_from t empty rest = rest
fresh_from t disconnected rest = []
fresh_from t (received c) rest = if is_fresh t c then c.packet ∷ rest else rest

pub fresh : List Tick → List PreparedVoicePacket
fresh [] = []
fresh (t ∷ ts) = fresh_from t t.command (fresh ts)

-- The reports of the commands of another generation, up to there.
pub stale_from : Tick → Received → List DeadlineDropRecord → List DeadlineDropRecord
stale_from t empty rest = rest
stale_from t disconnected rest = []
stale_from t (received c) rest = if is_fresh t c then rest else from_command c ∷ rest

pub stale : List Tick → List DeadlineDropRecord
stale [] = []
stale (t ∷ ts) = stale_from t t.command (stale ts)

-- What the sink and the channel of drop records have at the end of a run.
abbrev pub handed_and_dropped :
    Result RuntimeError DeadlineSender
    → Option (List PreparedVoicePacket × Option (List DeadlineDropRecord))
handed_and_dropped (ok s) = some (s.handed, s.drop_records)
handed_and_dropped _ = none

-- What a run from a state with these hands on and reports, as the run's theorem states it.
abbrev Runs : List Tick → Type 0
Runs ts =
    (s : DeadlineSender) (dropped : List DeadlineDropRecord)
    → s.shutdown ≡ false
    → s.follows_generation ≡ true
    → s.drop_records ≡ some dropped
    → handed_and_dropped (run s ts) ≡ some (s.handed ++ fresh ts, some (dropped ++ stale ts))

run-shut_down : (s : DeadlineSender) (ts : List Tick) → s.shutdown ≡ true → run s ts ≡ ok s
unfolding run
run-shut_down s [] e = refl
run-shut_down s (t ∷ ts) e = rw e refl

offer-handed {ℓ} :
    {A : Type ℓ} (channel : Option (List A)) (r : A) (message : String)
    (k : Option (List A) → Result RuntimeError DeadlineSender)
    (h : DeadlineSender → Result RuntimeError DeadlineSender)
    {v : Option (List PreparedVoicePacket × Option (List DeadlineDropRecord))}
    → ((rs : Option (List A)) → handed_and_dropped (k rs >>= h) ≡ v)
    → handed_and_dropped ((offer channel r true message >>= k) >>= h) ≡ v
offer-handed none r message k h e = e none
offer-handed (some rs) r message k h e = e (some (rs ++ (r ∷ [])))

send_command-Runs :
    (s : DeadlineSender) (dropped : List DeadlineDropRecord) (t : Tick) (ts : List Tick) (d : ℕ)
    (c : PreparedPlayoutCommand)
    → s.shutdown ≡ false
    → s.follows_generation ≡ true
    → s.drop_records ≡ some dropped
    → IsAnswered t
    → Runs ts
    → handed_and_dropped (send_command s t d c >>= λ s'. run s' ts)
      ≡ some (s.handed ++ (c.packet ∷ fresh ts), some (dropped ++ stale ts))
unfolding send_command
send_command-Runs s dropped t ts d c running follows channel (sink, drops, records) ih =
    rw (sink, records)
      (offer-handed s.send_records _ _ _ (λ s'. run s' ts)
        λ rs.
          ih _ dropped running follows channel
          ∙ ap (λ l. some (l, some (dropped ++ stale ts)))
              (append_assoc s.handed (c.packet ∷ []) (fresh ts)))

drop_stale-Runs :
    (s : DeadlineSender) (dropped : List DeadlineDropRecord) (t : Tick) (ts : List Tick)
    (c : PreparedPlayoutCommand)
    → s.shutdown ≡ false
    → s.follows_generation ≡ true
    → s.drop_records ≡ some dropped
    → IsAnswered t
    → Runs ts
    → handed_and_dropped (drop_stale s t c >>= λ s'. run s' ts)
      ≡ some (s.handed ++ fresh ts, some (dropped ++ (from_command c ∷ stale ts)))
unfolding drop_stale
drop_stale-Runs s dropped t ts c running follows channel (sink, drops, records) ih =
    rw (channel, drops)
      (ih
          (record s {
            drop_records = some (dropped ++ (from_command c ∷ []));
            next_deadline = some (t.now + s.tick);
          })
          (dropped ++ (from_command c ∷ [])) running follows refl
        ∙ ap (λ l. some (s.handed ++ fresh ts, some l))
            (append_assoc dropped (from_command c ∷ []) (stale ts)))

on_command-Runs :
    (s : DeadlineSender) (dropped : List DeadlineDropRecord) (t : Tick) (ts : List Tick) (d : ℕ)
    (c : Received)
    → s.shutdown ≡ false
    → s.follows_generation ≡ true
    → s.drop_records ≡ some dropped
    → IsAnswered t
    → Runs ts
    → handed_and_dropped (on_command s t d c >>= λ s'. run s' ts)
      ≡ some (s.handed ++ fresh_from t c (fresh ts), some (dropped ++ stale_from t c (stale ts)))
unfolding on_command fresh_from stale_from
on_command-Runs s dropped t ts d empty running follows channel answered ih =
    ih _ dropped running follows channel
on_command-Runs s dropped t ts d disconnected running follows channel answered ih =
    ap handed_and_dropped (run-shut_down (record s { shutdown = true }) ts refl)
    ∙ (rw (append-nil s.handed, append-nil dropped, channel) refl)
on_command-Runs s dropped t ts d (received c) running follows channel answered ih =
    elim (Bool-cases (is_fresh t c)) [
      | inl is ↦ rw is (
          ap (λ r. handed_and_dropped (r >>= λ s'. run s' ts))
            (if_false (s.follows_generation && false) _ _ (rw follows refl))
          ∙ send_command-Runs s dropped t ts d c running follows channel answered ih)
      | inr is_not ↦ rw is_not (
          ap (λ r. handed_and_dropped (r >>= λ s'. run s' ts))
            (if_true (s.follows_generation && true) _ _ (rw follows refl))
          ∙ drop_stale-Runs s dropped t ts c running follows channel answered ih)
    ]

-- Where the sink and the channels take what they get, the sender started from a state that has handed
-- on `handed` and reported `dropped` hands on, after them, exactly the packets of the active generation,
-- in their order, and reports exactly the others, up to where the commands end.
pub run-handed_and_dropped :
    (s : DeadlineSender) (dropped : List DeadlineDropRecord) (ts : List Tick)
    → s.shutdown ≡ false
    → s.follows_generation ≡ true
    → s.drop_records ≡ some dropped
    → AreAnswered ts
    → handed_and_dropped (run s ts) ≡ some (s.handed ++ fresh ts, some (dropped ++ stale ts))
unfolding run fresh stale tick_once
run-handed_and_dropped s dropped [] running follows channel answered =
    rw (append-nil s.handed, append-nil dropped, channel)
run-handed_and_dropped s dropped (t ∷ ts) running follows channel (answered, rest) =
    ap handed_and_dropped (if_false s.shutdown _ _ running)
    ∙ on_command-Runs (record s { next_deadline = none }) dropped t ts (expected_deadline_of s t)
        t.command running follows channel answered
        (λ s' dropped' r f c. run-handed_and_dropped s' dropped' ts r f c rest)
