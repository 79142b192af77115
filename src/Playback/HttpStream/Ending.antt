-- ===== src/Playback/HttpStream/Ending.antt =====
-- http_stream.rs: reading a chunk comes to an end after two responses at most.
use discord_voice_service.Common.{
  ℕ, ◌≤◌, ◌==◌, sym, subst, ◌≡◌, refl, inl, inr, ◌⊎◌, ◌&&◌, Option, none, some, List, [], ◌∷◌, ◌++◌,
  ltb, Result, ok, err, panic, arith, Bool-cases, Option-cases,
}
use discord_voice_service.Playback.Error.{PlaybackError}
use discord_voice_service.Playback.HttpRange.{
  BodyEvent, received, failed, stalled, HttpResponse, ResponseExtent, response_extent,
  validate_resume_response,
}
use discord_voice_service.Playback.HttpStream.{
  HttpOpusStream, Http, Reading, Opening, offset, is_nonempty, hand_out, checked, answered,
  read_body, installed, opened, open_response, with_response, read_loop, read_chunk,
  should_reopen_after_response_eof, is_error_status,
}

-- A read that came back, or that still waits, and did not panic.
abbrev pub Returns : {N : Type 0} → Reading N → Type 0
Returns (some panic, s, n) = ⊥
Returns (_, s, n) = Unit

response_extent-eq-panic : (r : HttpResponse) (at : ℕ) → ¬ (response_extent r at ≡ panic)
unfolding response_extent
response_extent-eq-panic r at h = elim (Option-cases r.content_range) [
  | inl absent ↦ ground arith
  | inr (none, given) ↦ ground arith
  | inr (some text, given) ↦ ground arith
]

validate-eq-panic : (r : HttpResponse) (at : ℕ) → ¬ (validate_resume_response r at ≡ panic)
unfolding validate_resume_response
validate-eq-panic r at h = ground arith

module _ {N : Type 0} where
  hand_out-Returns : (s : HttpOpusStream) (n : N) → Returns (hand_out s n)
  hand_out-Returns s n = tt

  -- Nothing of this response has been handed out: another is not asked for.
  read_body-Returns_fresh :
      (again : HttpOpusStream → N → Reading N) (body : List BodyEvent) (s : HttpOpusStream) (n : N)
      → offset s ≤ s.response_start
      → Returns (read_body again body s n)
  unfolding read_body should_reopen_after_response_eof
  read_body-Returns_fresh again [] s n h = ground arith
  read_body-Returns_fresh again (received chunk ∷ body) s n h = ground (
    arith,
    read_body-Returns_fresh again body
        (record s { pending = s.pending ++ chunk; response = some body }) n h,
  )
  read_body-Returns_fresh again (failed e ∷ body) s n h = ground arith
  read_body-Returns_fresh again (stalled ∷ body) s n h = tt

  read_body-Returns :
      (again : HttpOpusStream → N → Reading N)
      → ((s : HttpOpusStream) (n : N) → s.response ≡ none → Returns (again s n))
      → (body : List BodyEvent) (s : HttpOpusStream) (n : N) → Returns (read_body again body s n)
  unfolding read_body should_reopen_after_response_eof
  read_body-Returns again h [] s n =
      ground (arith, h (record s { response = none; response_end = none }) n refl)
  read_body-Returns again h (received chunk ∷ body) s n = ground (
    arith,
    read_body-Returns again h body (record s { pending = s.pending ++ chunk; response = some body })
        n,
  )
  read_body-Returns again h (failed e ∷ body) s n = grind (arith, h)
  read_body-Returns again h (stalled ∷ body) s n = tt

  module _ (client : Http N) where
    opened-Returns :
        (again : HttpOpusStream → N → Reading N) (opening : Opening N)
        → ¬ (opening.0 ≡ some panic)
        → Returns (opened again opening)
    opened-Returns again (none, s, n) h = tt
    opened-Returns again (some (err e), s, n) h = tt
    opened-Returns again (some panic, s, n) h = h refl
    opened-Returns again (some (ok none), s, n) h = tt
    opened-Returns again (some (ok (some r)), s, n) h =
        installed-Returns (response_extent r (offset s)) (response_extent-eq-panic r (offset s))
      where
        installed-Returns :
            (extent : Result PlaybackError ResponseExtent)
            → ¬ (extent ≡ panic)
            → Returns (installed again r s n extent)
        installed-Returns (ok extent) h = read_body-Returns_fresh again r.body _ n (omega arith)
        installed-Returns (err e) h = tt
        installed-Returns panic h = h refl

    answered-eq-panic :
        (first : ℕ) (s : HttpOpusStream) (reply : Option (PlaybackError ⊎ HttpResponse)) (n : N)
        → ¬ ((answered first s (reply, n)).0 ≡ some panic)
    answered-eq-panic first s none n = λ h. cc
    answered-eq-panic first s (some (inl e)) n = λ h. cc
    answered-eq-panic first s (some (inr r)) n =
        elim (Bool-cases (ltb 0 first && (r.status == 416))) [
          | inl past ↦ rw past (λ h. cc)
          | inr more ↦ rw more (elim (Bool-cases (is_error_status r.status)) [
            | inl refused ↦ rw refused (λ h. cc)
            | inr fine ↦
                rw fine
                  (checked-eq-panic (validate_resume_response r first) (validate-eq-panic r first))
          ])
        ]
      where
        checked-eq-panic :
            (valid : Result PlaybackError (Unit {0}))
            → ¬ (valid ≡ panic)
            → ¬ ((checked first r s n valid).0 ≡ some panic)
        checked-eq-panic (ok u) never h = cc
        checked-eq-panic (err e) never h = cc
        checked-eq-panic panic never h = never refl

    with_response-Returns :
        (again : HttpOpusStream → N → Reading N)
        → ((s : HttpOpusStream) (n : N) → s.response ≡ none → Returns (again s n))
        → (response : Option (List BodyEvent)) (s : HttpOpusStream) (n : N)
        → Returns (with_response client again response s n)
    unfolding open_response
    with_response-Returns again h none s n =
        opened-Returns again (open_response client s n) (answered-eq-panic (offset s) _ _ _)
    with_response-Returns again h (some body) s n = read_body-Returns again h body s n

    read_loop-Returns_closed :
        (s : HttpOpusStream) (n : N) → s.response ≡ none → Returns (read_loop client 1 s n)
    unfolding read_loop open_response
    read_loop-Returns_closed s n h = elim (Bool-cases (is_nonempty s.pending)) [
      | inl some_wait ↦ rw some_wait tt
      | inr none_wait ↦ rw none_wait (
          subst (λ r. Returns (with_response client (read_loop client 0) r s n)) (sym h)
            (opened-Returns (read_loop client 0) (open_response client s n)
              (answered-eq-panic (offset s) _ _ _)))
    ]

    -- Whatever the server sends and wherever a connection breaks, reading a chunk asks for one more
    -- response at most, besides the open one, and never runs out of what it may read.
    pub read_chunk-Returns : (s : HttpOpusStream) (n : N) → Returns (read_chunk client s n)
    unfolding read_chunk read_loop
    read_chunk-Returns s n = elim (Bool-cases (is_nonempty s.pending)) [
      | inl some_wait ↦ rw some_wait tt
      | inr none_wait ↦
          rw none_wait
            (with_response-Returns (read_loop client 1) read_loop-Returns_closed s.response s n)
    ]
