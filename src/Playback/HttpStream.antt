-- ===== src/Playback/HttpStream.antt =====
-- crates/discord-voice-service-playback/src/media/http_stream.rs: a resource that is read in chunks over
-- several responses (`HttpOpusStream`). The HTTP client is a parameter. A read that would wait for ever
-- gives `none`, and the caller drops it with what it has written so far. The artificial delays that the
-- environment can ask for are left out.
pub mod Pieces
pub mod Delivery
pub mod Ending
use discord_voice_service.Common.{
  ℕ, zero, suc, min, ◌≤◌, Bool, true, false, not, ◌&&◌, ◌||◌, Option, none, some, List, [], ◌∷◌,
  ◌++◌, String, ltb, leb, ◌==◌, if◌then◌else◌, length, take, drop, Result, ok, err, panic, ◌⊎◌, inl,
  inr,
}
use discord_voice_service.Common.Words.{saturating_add}
use discord_voice_service.Common.Bytes.{Bytes}
use discord_voice_service.Playback.Error.{PlaybackError, media_parse_detail, http}
use discord_voice_service.Playback.Position.{
  PlaybackPosition, default_position, set_byte_offset, advance_bytes,
}
use discord_voice_service.Playback.HttpRange.{
  BodyEvent, received, failed, stalled, HttpResponse, ResponseExtent, response_extent,
  validate_resume_response,
}

abbrev pub max_read_chunk_bytes : ℕ
max_read_chunk_bytes = 65_536

pub record HttpOpusStreamMetrics : Type 0 where
  pub response_open_count : ℕ
  pub range_reopen_count : ℕ
  pub bounded_chunk_count : ℕ
  pub read_error_reopen_count : ℕ

abbrev pub no_stream_metrics : HttpOpusStreamMetrics
no_stream_metrics = record {
  response_open_count = 0;
  range_reopen_count = 0;
  bounded_chunk_count = 0;
  read_error_reopen_count = 0;
}

-- Of an open response, what is still to come of its body.
pub record HttpOpusStream : Type 0 where
  pub url : String
  pub response : Option (List BodyEvent)
  pub response_start : ℕ
  pub response_end : Option ℕ
  pub resource_end : Option ℕ
  pub pending : Bytes
  pub position : PlaybackPosition
  pub metrics : HttpOpusStreamMetrics

abbrev pub offset : HttpOpusStream → ℕ
offset s = s.position.byte_offset

unfoldable pub new_stream : String → HttpOpusStream
new_stream url = record {
  url = url;
  response = none;
  response_start = 0;
  response_end = none;
  resource_end = none;
  pending = [];
  position = default_position;
  metrics = no_stream_metrics;
}

unfoldable pub set_resume_offset : ℕ → HttpOpusStream → HttpOpusStream
unfolding set_byte_offset
set_resume_offset byte_offset s = record s {
  position = set_byte_offset byte_offset s.position;
  response = none;
  response_start = byte_offset;
  response_end = none;
  resource_end = none;
  pending = [];
}

abbrev pub is_nonempty : Bytes → Bool
is_nonempty [] = false
is_nonempty (x ∷ xs) = true

-- The two `is_some_and`.
abbrev pub is_before : ℕ → Option ℕ → Bool
is_before position none = false
is_before position (some end) = ltb position end

unfoldable pub should_reopen_after_response_eof : HttpOpusStream → Result PlaybackError Bool
should_reopen_after_response_eof s =
    if not (is_before (offset s) s.response_end) && not (is_before (offset s) s.resource_end)
    then ok false
    else (if leb (offset s) s.response_start
        then err (media_parse_detail "playback source response ended before advancing")
        else ok true)

unfoldable pub take_pending_chunk : HttpOpusStream → Option Bytes × HttpOpusStream
unfolding advance_bytes
take_pending_chunk s =
    let chunk_len = min (length s.pending) max_read_chunk_bytes in
    let bytes = take chunk_len s.pending in
    if is_nonempty s.pending
    then (
      some bytes,
      record s {
        pending = drop chunk_len s.pending;
        metrics = record s.metrics {
          bounded_chunk_count = saturating_add s.metrics.bounded_chunk_count 1;
        };
        position = advance_bytes (length bytes) s.position;
      },
    )
    else (none, s)

-- The client: what comes back for a URL and the first byte in the `Range` header, if there is one, or
-- `none` if nothing does.
pub record Http (N : Type 0) : Type 0 where
  pub send : N → String → Option ℕ → Option (PlaybackError ⊎ HttpResponse) × N

abbrev pub Reading : Type 0 → Type 0
Reading N = Option (Result PlaybackError (Option Bytes)) × HttpOpusStream × N

abbrev pub Opening : Type 0 → Type 0
Opening N = Option (Result PlaybackError (Option HttpResponse)) × HttpOpusStream × N

abbrev pub is_error_status : ℕ → Bool
is_error_status status = leb 400 status && ltb status 600

module _ {N : Type 0} where
  -- The arm at the top of the loop.
  abbrev pub hand_out : HttpOpusStream → N → Reading N
  hand_out s n = let (chunk, s) = take_pending_chunk s in (some (ok chunk), s, n)

  abbrev pub checked :
      ℕ → HttpResponse → HttpOpusStream → N → Result PlaybackError (Unit {0}) → Opening N
  checked expected_start response s n (ok u) = (some (ok (some response)), s, n)
  checked expected_start response s n (err e) = (some (err e), s, n)
  checked expected_start response s n panic = (some panic, s, n)

  abbrev pub answered : ℕ → HttpOpusStream → Option (PlaybackError ⊎ HttpResponse) × N → Opening N
  answered expected_start s (none, n) = (none, s, n)
  answered expected_start s (some (inl e), n) = (some (err e), s, n)
  answered expected_start s (some (inr response), n) =
      if ltb 0 expected_start && (response.status == 416)
      then (some (ok none), s, n)
      else (if is_error_status response.status
          then (some (err (http (some response.status))), s, n)
          else checked expected_start response s n
              (validate_resume_response response expected_start))

  -- The arm of `Err`: bytes that wait are handed out first; after some progress the rest is asked for.
  abbrev pub on_failed :
      (HttpOpusStream → N → Reading N) → PlaybackError → HttpOpusStream → N → Reading N
  on_failed again e s n =
      let closed = record s { response = none; response_end = none } in
      if is_nonempty s.pending
      then hand_out closed n
      else (if ltb s.response_start (offset s)
          then again
              (record closed {
                metrics = record s.metrics {
                  read_error_reopen_count = saturating_add s.metrics.read_error_reopen_count 1;
                };
              })
              n
          else (some (err e), closed, n))

  abbrev pub on_eof :
      (HttpOpusStream → N → Reading N) → HttpOpusStream → N → Result PlaybackError Bool → Reading N
  on_eof again s n (ok true) = again (record s { response = none; response_end = none }) n
  on_eof again s n (ok false) =
      (some (ok none), record s { response = none; response_end = none; resource_end = none }, n)
  on_eof again s n (err e) = (some (err e), record s { response = none }, n)
  on_eof again s n panic = (some panic, record s { response = none }, n)

  -- The rounds of the loop with an open response and no byte waiting; `again` is a round without one.
  unfoldable pub read_body :
      (HttpOpusStream → N → Reading N) → List BodyEvent → HttpOpusStream → N → Reading N
  read_body again [] s n = on_eof again s n (should_reopen_after_response_eof s)
  read_body again (received chunk ∷ body) s n =
      let rest = read_body again body in
      let s = record s { pending = s.pending ++ chunk; response = some body } in
      if is_nonempty s.pending then hand_out s n else rest s n
  read_body again (failed e ∷ body) s n = on_failed again e s n
  read_body again (stalled ∷ body) s n = (none, record s { response = some body }, n)

  abbrev pub installed :
      (HttpOpusStream → N → Reading N)
      → HttpResponse
      → HttpOpusStream
      → N
      → Result PlaybackError ResponseExtent
      → Reading N
  installed again response s n (ok extent) =
      read_body again response.body
        (record s {
          response_start = offset s;
          response_end = extent.response_end;
          resource_end = extent.resource_end;
          response = some response.body;
        })
        n
  installed again response s n (err e) = (some (err e), s, n)
  installed again response s n panic = (some panic, s, n)

  abbrev pub opened : (HttpOpusStream → N → Reading N) → Opening N → Reading N
  opened again (none, s, n) = (none, s, n)
  opened again (some (err e), s, n) = (some (err e), s, n)
  opened again (some panic, s, n) = (some panic, s, n)
  opened again (some (ok none), s, n) = (some (ok none), s, n)
  opened again (some (ok (some response)), s, n) =
      installed again response s n (response_extent response (offset s))

  module _ (client : Http N) where
    unfoldable pub open_response : HttpOpusStream → N → Opening N
    open_response s n =
        let expected_start = offset s in
        let ranged = ltb 0 expected_start in
        let m = s.metrics in
        let s = record s {
          metrics = record m {
            range_reopen_count =
                if ranged then saturating_add m.range_reopen_count 1 else m.range_reopen_count;
            response_open_count = saturating_add m.response_open_count 1;
          };
        } in
        answered expected_start s
          (client.send n s.url (if ranged then some expected_start else none))

    abbrev pub with_response :
        (HttpOpusStream → N → Reading N) → Option (List BodyEvent) → HttpOpusStream → N → Reading N
    with_response again none s n = opened again (open_response s n)
    with_response again (some body) s n = read_body again body s n

    -- The loop of `read_chunk`, on fuel for the responses that it reads; without fuel it panics.
    unfoldable pub read_loop : ℕ → HttpOpusStream → N → Reading N
    read_loop zero s n = (some panic, s, n)
    read_loop (suc fuel) s n =
        let again = read_loop fuel in
        if is_nonempty s.pending then hand_out s n else with_response again s.response s n

    unfoldable pub read_chunk : HttpOpusStream → N → Reading N
    read_chunk s n = read_loop 2 s n
