-- ===== src/Twilight/Reporting.antt =====
-- When the tracker of crates/discord-voice-service-twilight/src/lib.rs gives out a context.
use discord_voice_service.Common.{
  Bool, true, false, String, Option, none, some, ◌&&◌, ◌≡◌, ◌≢◌, refl, arith, sym, ap, ◌∙◌, inl,
  inr, subst, Bool-cases, eq_iff, eq_refl, ==_iff,
}
use mathlib.Core.Bool.{false≢true}
use mathlib.Core.Option.{none-ne-some}
use discord_voice_service.Common.Maybe.{or_else}
use discord_voice_service.Twilight.Tracker.{
  VoiceContext, VoiceContextTracker, reset, context_of, context_eq, is_current, report,
}
use discord_voice_service.Twilight.History.{IsSettled, joined}
use discord_voice_service.Twilight.Advancing.{advanced}

&&-both : {a b : Bool} → (a && b) ≡ true → (a ≡ true) × (b ≡ true)
&&-both {a = true} h = (refl, h)
&&-both {a = false} h = ground arith

made-eq :
    {a b : VoiceContext}
    → a.guild_id ≡ b.guild_id
    → a.channel_id ≡ b.channel_id
    → a.user_id ≡ b.user_id
    → a.session_id ≡ b.session_id
    → a.endpoint ≡ b.endpoint
    → a.token ≡ b.token
    → a ≡ b
made-eq {a} {b} guild channel user session endpoint token = λ i. record {
  guild_id = guild i;
  channel_id = channel i;
  user_id = user i;
  session_id = session i;
  endpoint = endpoint i;
  token = token i;
}

context_eq_sound : (a b : VoiceContext) → context_eq a b ≡ true → a ≡ b
unfolding context_eq
context_eq_sound a b h =
    let h5 = &&-both h in
    let h4 = &&-both h5.0 in
    let h3 = &&-both h4.0 in
    let h2 = &&-both h3.0 in
    let h1 = &&-both h2.0 in
    made-eq ((==_iff a.guild_id b.guild_id).0 h1.0) ((==_iff a.channel_id b.channel_id).0 h1.1)
      ((==_iff a.user_id b.user_id).0 h2.1) ((eq_iff a.session_id b.session_id).0 h3.1)
      ((eq_iff a.endpoint b.endpoint).0 h4.1) ((eq_iff a.token b.token).0 h5.1)

context_eq_refl : (a : VoiceContext) → context_eq a a ≡ true
unfolding context_eq
context_eq_refl a = rw (
  ((==_iff a.guild_id a.guild_id).1 refl),
  ((==_iff a.channel_id a.channel_id).1 refl),
  ((==_iff a.user_id a.user_id).1 refl),
  (eq_refl a.session_id),
  (eq_refl a.endpoint),
  (eq_refl a.token),
)

-- What is news to somebody who knows of the context `before`.
abbrev pub IsNews : Option VoiceContext → Option VoiceContext → Option VoiceContext → Type 0
IsNews before after output = (after ≡ before → output ≡ none) × (after ≢ before → output ≡ after)

is_current_sound :
    (current : Option VoiceContext) (context : VoiceContext)
    → is_current current context ≡ true
    → current ≡ some context
unfolding is_current
is_current_sound none context h = ground arith
is_current_sound (some current) context h = ap some (context_eq_sound current context h)

is_current_complete :
    (current : Option VoiceContext) (context : VoiceContext)
    → some context ≡ current
    → is_current current context ≡ true
unfolding is_current
is_current_complete current context h =
    subst (λ c. is_current c context ≡ true) h (context_eq_refl context)

known :
    (t : VoiceContextTracker) (after : VoiceContext)
    → t.current ≡ some after
    → IsNews t.current (some after) none × (t ≡ record t { current = some after })
known t after h = (
  (λ same. refl, λ other. absurd (other (sym h))),
  ap (λ (x : Option VoiceContext). record t { current = x }) h,
)

stale :
    (t : VoiceContextTracker) (after : VoiceContext)
    → some after ≡ t.current
    → is_current t.current after ≡ false
    → some after ≡ none
stale t after same e = absurd (false≢true (sym e ∙ is_current_complete t.current after same))

pub report_lem :
    (t : VoiceContextTracker) (after : Option VoiceContext)
    → (after ≡ none → t.current ≡ none)
    → IsNews t.current after (report t after).0
      × ((report t after).1 ≡ record t { current = after })
unfolding report
report_lem t none settled = (
  (λ h. refl, λ h. refl),
  ap (λ (x : Option VoiceContext). record t { current = x }) (settled refl),
)
report_lem t (some after) settled = elim (Bool-cases (is_current t.current after)) [
  | inl e ↦ rw e (known t after (is_current_sound t.current after e))
  | inr e ↦ rw e ((λ same. stale t after same e, λ h. refl), refl)
]

told_or : {A : Type 0} (told : Option A) (a : A) → (b : A) × (or_else told (some a) ≡ some b)
told_or none a = (a, refl)
told_or (some b) a = (b, refl)

-- What is told later takes no part of the context away.
joined-none :
    (t : VoiceContextTracker) (s e k session_id endpoint token : Option String)
    → joined t (or_else s session_id) (or_else e endpoint) (or_else k token) ≡ none
    → joined t session_id endpoint token ≡ none
joined-none t s e k none endpoint token h = refl
joined-none t s e k (some session_id) none token h = refl
joined-none t s e k (some session_id) (some endpoint) none h = refl
joined-none t s e k (some session_id) (some endpoint) (some token) h =
    let known : joined t (or_else s (some session_id)) (or_else e (some endpoint))
          (or_else k (some token))
        ≡ joined t (some (told_or s session_id).0) (some (told_or e endpoint).0)
            (some (told_or k token).0) =
      rw ((told_or s session_id).1, (told_or e endpoint).1, (told_or k token).1) in
    absurd (none-ne-some _ (sym h ∙ known))

pub advanced_step :
    (t : VoiceContextTracker) (left : Bool) (s e k : Option String)
    → IsSettled t
    → let t' = advanced t left s e k in
      IsNews t.current (context_of t') (report t' (context_of t')).0
      × ((report t' (context_of t')).1 ≡ record t' { current = context_of t' })
unfolding reset context_of report
advanced_step t true s e k settled = ((λ h. refl, λ h. refl), refl)
advanced_step t false s e k settled =
    report_lem (advanced t false s e k) (context_of (advanced t false s e k))
      (λ h. settled ∙ joined-none t s e k t.session_id t.endpoint t.token h)
