-- ===== src/Playback/HttpStream/Delivery.antt =====
-- http_stream.rs: the chunks that are read are the resource, piece by piece, over all responses.
use discord_voice_service.Common.{
  ℕ, zero, suc, ◌≤◌, ◌≡◌, refl, sym, ap, subst, inl, inr, ◌⊎◌, Bool, true, false, ◌&&◌, Option,
  none, some, List, [], ◌∷◌, ◌++◌, ltb, ◌==◌, length, drop, Result, ok, err, panic, arith,
  Bool-cases, append_assoc,
}
use discord_voice_service.Common.Words.{u64_max}
use discord_voice_service.Common.Bytes.{Bytes}
use discord_voice_service.Playback.Error.{PlaybackError}
use discord_voice_service.Playback.HttpRange.{
  BodyEvent, received, failed, stalled, HttpResponse, ResponseExtent, response_extent,
  validate_resume_response,
}
use discord_voice_service.Playback.HttpStream.{
  HttpOpusStream, Http, Reading, Opening, offset, is_nonempty, checked, answered, on_eof, read_body,
  installed, opened, open_response, with_response, read_loop, read_chunk,
  should_reopen_after_response_eof, is_error_status,
}
use discord_voice_service.Playback.HttpStream.Pieces.{
  bytes_of, to_come, IsPrefix, Serves, Ahead, Delivered, IsPrefix-resp, is_nonempty_false→nil,
  hand_out-Delivered,
}

module _ {N : Type 0} (resource : Bytes) (small : length resource ≤ u64_max) where
  -- What a further round gives, in whichever state it starts.
  abbrev Continues : (HttpOpusStream → N → Reading N) → Type 0
  Continues again =
      (s : HttpOpusStream) (n : N) → Ahead resource s → Delivered resource (offset s) (again s n)

  read_body-Delivered :
      (again : HttpOpusStream → N → Reading N)
      → Continues again
      → (body : List BodyEvent) (s : HttpOpusStream) (n : N) → is_nonempty s.pending ≡ false
      → IsPrefix (s.pending ++ bytes_of body) (drop (offset s) resource)
      → Delivered resource (offset s) (read_body again body s n)
  unfolding read_body should_reopen_after_response_eof
  read_body-Delivered again h [] s n none_wait ahead =
      on_eof-Delivered (should_reopen_after_response_eof s)
    where
      on_eof-Delivered :
          (eof : Result PlaybackError Bool) → Delivered resource (offset s) (on_eof again s n eof)
      on_eof-Delivered (ok true) = h (record s { response = none; response_end = none }) n ahead
      on_eof-Delivered (ok false) = (refl, ahead)
      on_eof-Delivered (err e) = (refl, ahead)
      on_eof-Delivered panic = (refl, ahead)
  read_body-Delivered again h (received chunk ∷ body) s n none_wait ahead =
      let s' = record s { pending = s.pending ++ chunk; response = some body } in
      let ahead' : Ahead resource s' =
        IsPrefix-resp _ _ (drop (offset s) resource)
          (sym (append_assoc s.pending chunk (bytes_of body))) ahead in
      elim (Bool-cases (is_nonempty (s.pending ++ chunk))) [
        | inl some_wait ↦ rw some_wait (hand_out-Delivered resource small s' n some_wait ahead')
        | inr still ↦ rw still (read_body-Delivered again h body s' n still ahead')
      ]
  read_body-Delivered again h (failed e ∷ body) s n none_wait ahead =
      rw none_wait (elim (Bool-cases (ltb s.response_start (offset s))) [
        | inl advanced ↦ rw advanced (h _ n ahead)
        | inr same ↦ rw same (refl, ahead)
      ])
  read_body-Delivered again h (stalled ∷ body) s n none_wait ahead = (refl, ahead)

  -- An opened response carries what comes next.
  abbrev Opened : ℕ → Opening N → Type 0
  Opened first (some (ok (some r)), s, n) =
      (offset s ≡ first)
      × Ahead resource s
      × (is_nonempty s.pending ≡ false)
      × IsPrefix (s.pending ++ bytes_of r.body) (drop first resource)
  Opened first (_, s, n) = (offset s ≡ first) × Ahead resource s

  opened-Delivered :
      (again : HttpOpusStream → N → Reading N)
      → Continues again
      → (first : ℕ) (opening : Opening N) → Opened first opening
      → Delivered resource first (opened again opening)
  opened-Delivered again h first (none, s, n) p = p
  opened-Delivered again h first (some (err e), s, n) p = p
  opened-Delivered again h first (some panic, s, n) p = p
  opened-Delivered again h first (some (ok none), s, n) p = p
  opened-Delivered again h first (some (ok (some r)), s, n) (same, ahead, none_wait, next) =
      installed-Delivered (response_extent r (offset s))
    where
      installed-Delivered :
          (extent : Result PlaybackError ResponseExtent)
          → Delivered resource first (installed again r s n extent)
      installed-Delivered (ok extent) =
          subst (λ at. Delivered resource at (installed again r s n (ok extent))) same
            (read_body-Delivered again h r.body _ n none_wait (
              subst (λ at. IsPrefix (s.pending ++ bytes_of r.body) (drop at resource)) (sym same)
                next))
      installed-Delivered (err e) = (same, ahead)
      installed-Delivered panic = (same, ahead)

  module _ (client : Http N) (serves : Serves resource client) where
    -- The range that is asked for starts at the offset, and only 206 answers it.
    answered-Opened :
        (s : HttpOpusStream) (reply : Option (PlaybackError ⊎ HttpResponse)) (n : N)
        → Ahead resource s
        → is_nonempty s.pending ≡ false
        → ((r : HttpResponse)
            → reply ≡ some (inr r)
            → is_error_status r.status ≡ false
            → validate_resume_response r (offset s) ≡ ok tt
            → IsPrefix (bytes_of r.body) (drop (offset s) resource))
        → Opened (offset s) (answered (offset s) s (reply, n))
    answered-Opened s none n ahead none_wait next = (refl, ahead)
    answered-Opened s (some (inl e)) n ahead none_wait next = (refl, ahead)
    answered-Opened s (some (inr r)) n ahead none_wait next =
        elim (Bool-cases (ltb 0 (offset s) && (r.status == 416))) [
          | inl past ↦ rw past (refl, ahead)
          | inr more ↦ rw more (elim (Bool-cases (is_error_status r.status)) [
            | inl refused ↦ rw refused (refl, ahead)
            | inr fine ↦
                rw fine (checked-Opened (validate_resume_response r (offset s)) (next r refl fine))
          ])
        ]
      where
        checked-Opened :
            (valid : Result PlaybackError (Unit {0}))
            → (valid ≡ ok tt → IsPrefix (bytes_of r.body) (drop (offset s) resource))
            → Opened (offset s) (checked (offset s) r s n valid)
        checked-Opened (ok u) next = (
          refl,
          ahead,
          none_wait,
          IsPrefix-resp _ _ (drop (offset s) resource)
              (ap (λ l. l ++ bytes_of r.body) (sym (is_nonempty_false→nil s.pending none_wait)))
              (next refl),
        )
        checked-Opened (err e) next = (refl, ahead)
        checked-Opened panic next = (refl, ahead)

    validated-Answers :
        (r : HttpResponse) (first : ℕ)
        → validate_resume_response r first ≡ ok tt
        → ltb 0 first ≡ true
        → r.status ≡ 206
    unfolding validate_resume_response
    validated-Answers r first valid ranged = ground arith

    open_response-Opened :
        (s : HttpOpusStream) (n : N)
        → Ahead resource s
        → is_nonempty s.pending ≡ false
        → Opened (offset s) (open_response client s n)
    unfolding open_response
    open_response-Opened s n ahead none_wait = elim (Bool-cases (ltb 0 (offset s))) [
      | inl ranged ↦ rw ranged (
          answered-Opened _ _ _ ahead none_wait (λ r given fine valid.
            serves n s.url (some (offset s)) r given fine (validated-Answers r _ valid ranged)))
      | inr whole ↦ rw whole (
          answered-Opened _ _ _ ahead none_wait (λ r given fine valid.
            let zero_first : offset s ≡ 0 = ground arith in
            subst (λ at. IsPrefix (bytes_of r.body) (drop at resource)) (sym zero_first)
              (serves n s.url none r given fine tt)))
    ]

    round-Delivered :
        (again : HttpOpusStream → N → Reading N)
        → Continues again
        → (response : Option (List BodyEvent)) (s : HttpOpusStream) (n : N) → s.response ≡ response
        → is_nonempty s.pending ≡ false
        → Ahead resource s
        → Delivered resource (offset s) (with_response client again response s n)
    round-Delivered again h none s n e none_wait ahead =
        opened-Delivered again h (offset s) (open_response client s n)
          (open_response-Opened s n ahead none_wait)
    round-Delivered again h (some body) s n e none_wait ahead =
        read_body-Delivered again h body s n none_wait
          (subst (λ r. IsPrefix (s.pending ++ to_come r) (drop (offset s) resource)) e ahead)

    read_loop-Delivered :
        (fuel : ℕ) (s : HttpOpusStream) (n : N)
        → Ahead resource s
        → Delivered resource (offset s) (read_loop client fuel s n)
    unfolding read_loop
    read_loop-Delivered zero s n ahead = (refl, ahead)
    read_loop-Delivered (suc fuel) s n ahead = elim (Bool-cases (is_nonempty s.pending)) [
      | inl some_wait ↦ rw some_wait (hand_out-Delivered resource small s n some_wait ahead)
      | inr none_wait ↦ rw none_wait (
          round-Delivered (read_loop client fuel) (read_loop-Delivered fuel) s.response s n refl
            none_wait ahead)
    ]

    -- A chunk that is read is the next piece of the resource, of one byte to 64 KiB, however often the
    -- connection breaks and a further response is opened; the offset is moved past it, and in any other
    -- outcome stays where it was. So no byte is lost or read twice. The server keeps to HTTP, and the
    -- resource is of less than 2 ^ 64 bytes.
    pub read_chunk-Delivered :
        (s : HttpOpusStream) (n : N)
        → Ahead resource s
        → Delivered resource (offset s) (read_chunk client s n)
    unfolding read_chunk
    read_chunk-Delivered s n ahead = read_loop-Delivered 2 s n ahead
