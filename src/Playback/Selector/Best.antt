-- ===== src/Playback/Selector/Best.antt =====
-- selector.rs: the selection against its specification, one pass that keeps the best so far.
use discord_voice_service.Common.{
  subst, sym, ap, Bool, ◌&&◌, ◌||◌, ltb, Option, none, ==_iff, ◌≡◌, ◌<◌, ◌==◌, ℕ, some, eq_iff,
  eq_refl, refl, true, false, List, [], ◌∷◌, ok, err, arith, if◌then◌else◌, Bool-cases, inl, inr,
  All, Result, ◌⊎◌,
}
use discord_voice_service.Playback.Error.{PlaybackError, unsupported_format}
use discord_voice_service.Playback.Selector.{
  SongStreamFormat, is_value, is_allowed, priority_for_itag, key_before, insert, sort_by_key,
  allowed, first_or_unsupported, select_song_stream_format,
}

-- `f` is one of the formats.
abbrev pub Among : SongStreamFormat → List SongStreamFormat → Type 0
Among f [] = ⊥
Among f (g ∷ rest) = (f ≡ g) ⊎ Among f rest

-- The first of the formats that no other is strictly before.
abbrev pub best : SongStreamFormat → List SongStreamFormat → SongStreamFormat
best f [] = f
best f (g ∷ rest) = if key_before (best g rest) f then best g rest else f

-- What the selection is to give for the allowed formats.
abbrev pub best_or_unsupported : List SongStreamFormat → Result PlaybackError SongStreamFormat
best_or_unsupported [] = err unsupported_format
best_or_unsupported (f ∷ rest) = ok (best f rest)

key_before-irreflexive : (f : SongStreamFormat) → key_before f f ≡ false
unfolding key_before
key_before-irreflexive f = ground arith

key_before-asymmetric : (f g : SongStreamFormat) → key_before f g ≡ true → key_before g f ≡ false
unfolding key_before
key_before-asymmetric f g p = ground arith

key_before_trans :
    (f g h : SongStreamFormat)
    → key_before f g ≡ false
    → key_before g h ≡ false
    → key_before f h ≡ false
unfolding key_before
key_before_trans f g h p q = ground arith

-- No format of the list is strictly before `f`.
abbrev pub NoneBefore : SongStreamFormat → List SongStreamFormat → Type 0
NoneBefore f = All (λ g. key_before g f ≡ false)

NoneBefore-trans :
    (f g : SongStreamFormat) (xs : List SongStreamFormat)
    → NoneBefore f xs
    → key_before f g ≡ false
    → NoneBefore g xs
NoneBefore-trans f g [] h p = tt
NoneBefore-trans f g (x ∷ xs) (q, h) p = (key_before_trans x f g q p, NoneBefore-trans f g xs h p)

-- The better of the best of the rest and the format before them is the best of all.
keep_better :
    (f b r : SongStreamFormat) (xs : List SongStreamFormat)
    → r ≡ (if key_before b f then b else f)
    → Among b xs
    → NoneBefore b xs
    → Among r (f ∷ xs) × NoneBefore r (f ∷ xs)
keep_better f b r xs e among none_before = elim (Bool-cases (key_before b f)) [
  | inl before ↦
      let r≡b : r ≡ b = (rw (e, before) refl) in
      subst (λ t. Among t (f ∷ xs) × NoneBefore t (f ∷ xs)) (sym r≡b)
        (inr among, (key_before-asymmetric b f before, none_before))
  | inr behind ↦
      let r≡f : r ≡ f = (rw (e, behind) refl) in
      subst (λ t. Among t (f ∷ xs) × NoneBefore t (f ∷ xs)) (sym r≡f)
        (inl refl, (key_before-irreflexive f, NoneBefore-trans b f xs none_before behind))
]

best-NoneBefore :
    (f : SongStreamFormat) (xs : List SongStreamFormat)
    → Among (best f xs) (f ∷ xs) × NoneBefore (best f xs) (f ∷ xs)
best-NoneBefore f [] = (inl refl, (key_before-irreflexive f, tt))
best-NoneBefore f (g ∷ rest) =
    let (among, none_before) = best-NoneBefore g rest in
    keep_better f (best g rest) (best f (g ∷ rest)) (g ∷ rest) refl among none_before

head-insert :
    (f b : SongStreamFormat) (xs : List SongStreamFormat)
    → first_or_unsupported xs ≡ ok b
    → first_or_unsupported (insert f xs) ≡ ok (if key_before b f then b else f)
unfolding insert
head-insert f b [] e = cc
head-insert f b (g ∷ rest) e = ground arith

head-sort_by_key :
    (f : SongStreamFormat) (xs : List SongStreamFormat)
    → first_or_unsupported (sort_by_key (f ∷ xs)) ≡ ok (best f xs)
unfolding sort_by_key
head-sort_by_key f [] = unfold insert in refl
head-sort_by_key f (g ∷ rest) =
    head-insert f (best g rest) (sort_by_key (g ∷ rest)) (head-sort_by_key g rest)

ok_injective :
    (r : Result PlaybackError SongStreamFormat) {a b : SongStreamFormat}
    → r ≡ ok a
    → r ≡ ok b
    → a ≡ b
ok_injective r p q = cc

allowed-allowed :
    (g : SongStreamFormat) (rest : List SongStreamFormat)
    → is_allowed g ≡ true
    → allowed (g ∷ rest) ≡ g ∷ allowed rest
unfolding allowed
allowed-allowed g rest chosen = rw chosen refl

allowed-refused :
    (g : SongStreamFormat) (rest : List SongStreamFormat)
    → is_allowed g ≡ false
    → allowed (g ∷ rest) ≡ allowed rest
unfolding allowed
allowed-refused g rest refused = rw refused refl

allowed-Among :
    (f : SongStreamFormat) (formats : List SongStreamFormat)
    → Among f (allowed formats)
    → Among f formats × (is_allowed f ≡ true)
allowed-Among f [] m = unfold allowed in elim m [ ]
allowed-Among f (g ∷ rest) m = elim (Bool-cases (is_allowed g)) [
  | inl chosen ↦
      here_or_later chosen (allowed-Among f rest)
        (subst (Among f) (allowed-allowed g rest chosen) m)
  | inr refused ↦ later (allowed-Among f rest) (subst (Among f) (allowed-refused g rest refused) m)
]
  where
    later :
        (Among f (allowed rest) → Among f rest × (is_allowed f ≡ true))
        → Among f (allowed rest)
        → Among f (g ∷ rest) × (is_allowed f ≡ true)
    later rec m = let (among, chosen) = rec m in (inr among, chosen)

    here_or_later :
        is_allowed g ≡ true
        → (Among f (allowed rest) → Among f rest × (is_allowed f ≡ true))
        → Among f (g ∷ allowed rest)
        → Among f (g ∷ rest) × (is_allowed f ≡ true)
    here_or_later chosen rec (inl e) = (inl e, (rw e chosen))
    here_or_later chosen rec (inr m) = later rec m

-- WebM with Opus, 48 kHz and stereo, and one of the two itags or below 50 kbit/s.
abbrev pub Allowed : SongStreamFormat → Type 0
Allowed f =
    (f.mime_type ≡ "audio/webm; codecs=\"opus\"")
    × (f.audio_sample_rate ≡ some 48_000)
    × (f.audio_channels ≡ some 2)
    × ((f.itag ≡ 250) ⊎ (f.itag ≡ 249) ⊎ (f.bitrate < 50_000))

-- Itag 250 comes first, then 249, then the others.
abbrev pub rank : ℕ → ℕ
rank itag = if itag == 250 then 0 else if itag == 249 then 1 else 2

-- `g` is to be preferred to `f`.
abbrev pub IsBetter : SongStreamFormat → SongStreamFormat → Type 0
IsBetter g f = (rank g.itag < rank f.itag) ⊎ ((rank g.itag ≡ rank f.itag) × (f.bitrate < g.bitrate))

both : (a b : Bool) → (a && b) ≡ true → (a ≡ true) × (b ≡ true)
both true b h = (refl, h)
both false b h = ground arith

is_value_sound : (n : ℕ) (o : Option ℕ) → is_value n o ≡ true → o ≡ some n
is_value_sound n none h = ground arith
is_value_sound n (some m) h = ap some ((==_iff m n).0 h)

small_sound :
    (itag bitrate : ℕ)
    → (itag == 250 || itag == 249 || ltb bitrate 50_000) ≡ true
    → (itag ≡ 250) ⊎ (itag ≡ 249) ⊎ (bitrate < 50_000)
small_sound itag bitrate h = ground arith

is_allowed-Allowed : (f : SongStreamFormat) → is_allowed f ≡ true → Allowed f
unfolding is_allowed
is_allowed-Allowed f h =
    let mime = both _ _ h in
    let rate = both _ _ mime.1 in
    let channels = both _ _ rate.1 in
    (
      (eq_iff f.mime_type "audio/webm; codecs=\"opus\"").0 mime.0,
      is_value_sound 48_000 f.audio_sample_rate rate.0,
      is_value_sound 2 f.audio_channels channels.0,
      small_sound f.itag f.bitrate channels.1,
    )

Allowed-is_allowed : (f : SongStreamFormat) → Allowed f → is_allowed f ≡ true
unfolding is_allowed
Allowed-is_allowed f (mime, rate, channels, small) =
    rw (mime, rate, channels, eq_refl "audio/webm; codecs=\"opus\"") (ground arith)

key_before-not-IsBetter : (f g : SongStreamFormat) → key_before g f ≡ false → ¬ IsBetter g f
unfolding key_before priority_for_itag
key_before-not-IsBetter f g h better = ground arith

Among-allowed :
    (g : SongStreamFormat) (formats : List SongStreamFormat)
    → Among g formats
    → is_allowed g ≡ true
    → Among g (allowed formats)
Among-allowed g [] m chosen = absurd m
Among-allowed g (h ∷ rest) (inl e) chosen =
    subst (Among g) (sym (allowed-allowed h rest (subst (λ x. is_allowed x ≡ true) e chosen)))
      (inl e)
Among-allowed g (h ∷ rest) (inr m) chosen = elim (Bool-cases (is_allowed h)) [
  | inl fits ↦
      subst (Among g) (sym (allowed-allowed h rest fits)) (inr (Among-allowed g rest m chosen))
  | inr refused ↦
      subst (Among g) (sym (allowed-refused h rest refused)) (Among-allowed g rest m chosen)
]

All-Among :
    (P : SongStreamFormat → Type 0) (g : SongStreamFormat) (xs : List SongStreamFormat)
    → All P xs
    → Among g xs
    → P g
All-Among P g [] all m = absurd m
All-Among P g (x ∷ xs) (p, all) (inl e) = subst P (sym e) p
All-Among P g (x ∷ xs) (p, all) (inr m) = All-Among P g xs all m

select_song_stream_format-NoneBefore :
    (formats : List SongStreamFormat) (f : SongStreamFormat)
    → select_song_stream_format formats ≡ ok f
    → Among f formats × (is_allowed f ≡ true) × NoneBefore f (allowed formats)
unfolding select_song_stream_format
select_song_stream_format-NoneBefore formats f e = go (allowed formats) refl e
  where
    go :
        (fs : List SongStreamFormat)
        → allowed formats ≡ fs
        → first_or_unsupported (sort_by_key fs) ≡ ok f
        → Among f formats × (is_allowed f ≡ true) × NoneBefore f (allowed formats)
    go [] a e = unfold sort_by_key in cc
    go (g ∷ rest) a e =
        let f≡best : best g rest ≡ f = ok_injective _ (head-sort_by_key g rest) e in
        let (among, none_before) = best-NoneBefore g rest in
        let among_f : Among f (allowed formats) =
          subst (Among f) (sym a) (subst (λ t. Among t (g ∷ rest)) f≡best among) in
        let none_f : NoneBefore f (allowed formats) =
          subst (NoneBefore f) (sym a) (subst (λ t. NoneBefore t (g ∷ rest)) f≡best none_before) in
        let (offered, chosen) = allowed-Among f formats among_f in (offered, chosen, none_f)

-- The selected format is one of those offered and meets the conditions on codec, sample rate, channels and
-- bitrate, and no format that is offered and meets them has a better rank by its itag, or the same rank
-- and a higher bitrate.
pub select_song_stream_format-best :
    (formats : List SongStreamFormat) (f : SongStreamFormat)
    → select_song_stream_format formats ≡ ok f
    → Among f formats
      × Allowed f
      × ((g : SongStreamFormat) → Among g formats → Allowed g → ¬ IsBetter g f)
select_song_stream_format-best formats f e =
    let (among, chosen, none_before) = select_song_stream_format-NoneBefore formats f e in
    (
      among,
      is_allowed-Allowed f chosen,
      λ g offered fit. key_before-not-IsBetter f g (
          All-Among _ g (allowed formats) none_before
            (Among-allowed g formats offered (Allowed-is_allowed g fit))),
    )

-- Where no format is allowed the selection fails with `UnsupportedFormat`, and otherwise it selects
-- the first of the allowed formats that no other is strictly before.
pub select_song_stream_format-eq :
    (formats : List SongStreamFormat)
    → select_song_stream_format formats ≡ best_or_unsupported (allowed formats)
unfolding select_song_stream_format
select_song_stream_format-eq formats = go (allowed formats)
  where
    go :
        (fs : List SongStreamFormat)
        → first_or_unsupported (sort_by_key fs) ≡ best_or_unsupported fs
    go [] = unfold sort_by_key in refl
    go (g ∷ rest) = head-sort_by_key g rest
