-- ===== src/Playback/HttpRange.antt =====
-- crates/discord-voice-service-playback/src/media/http_stream.rs: what a response to a range request
-- says of the bytes that it carries. Header values are bytes of ASCII. The numbers in the messages of
-- errors are left out.
use discord_voice_service.Common.{
  ℕ, zero, suc, ◌+◌, ◌-◌, ◌*◌, ◌/◌, ◌%◌, Bool, true, false, not, ◌&&◌, Option, none, some, List, [],
  ◌∷◌, ◌++◌, ltb, leb, ◌==◌, if◌then◌else◌, Result, ok, err,
}
use discord_voice_service.Common.Maybe.{◌>>=◌ as ◌>>=?◌, option_map}
use discord_voice_service.Common.Words.{saturating_add, u64_max}
use discord_voice_service.Common.Bytes.{Bytes}
use discord_voice_service.Playback.Error.{PlaybackError, media_parse_detail}

-- What waiting for the body gives: a chunk, the failure of the connection, or nothing for longer than
-- any timeout of the caller.
pub data BodyEvent : Type 0 where
  received : Bytes → BodyEvent
  failed : PlaybackError → BodyEvent
  stalled : BodyEvent

-- The third-party response. The outer `Option` of `content_range` is that of the header, the inner one
-- that of `to_str`. The body ends where the list does.
pub record HttpResponse : Type 0 where
  pub status : ℕ
  pub content_length : Option ℕ
  pub content_range : Option (Option Bytes)
  pub body : List BodyEvent

-- `str` of the standard library: `strip_prefix`, `split_once` at a character, `parse::<u64>`, `to_string`.
abbrev pub strip_prefix : Bytes → Bytes → Option Bytes
strip_prefix [] text = some text
strip_prefix (p ∷ ps) [] = none
strip_prefix (p ∷ ps) (x ∷ xs) = if p == x then strip_prefix ps xs else none

abbrev pub starts_with : Bytes → Bytes → Bool
starts_with prefix text = elim (strip_prefix prefix text) [ none ↦ false | some rest ↦ true ]

abbrev pub split_once : ℕ → Bytes → Option (Bytes × Bytes)
split_once at [] = none
split_once at (x ∷ xs) =
    if x == at then some ([], xs) else option_map (λ (a, b). (x ∷ a, b)) (split_once at xs)

abbrev is_digit : ℕ → Bool
is_digit x = leb b'0' x && leb x b'9'

abbrev pub parse_digits : ℕ → Bytes → Option ℕ
parse_digits value [] = some value
parse_digits value (x ∷ xs) =
    let more = parse_digits (value * 10 + (x - b'0')) xs in
    if is_digit x && leb (value * 10 + (x - b'0')) u64_max then more else none

unfoldable pub parse_u64 : Bytes → Option ℕ
parse_u64 [] = none
parse_u64 (x ∷ xs) =
    if x == b'+'
    then elim xs [ [] ↦ none | y ∷ ys ↦ parse_digits 0 (y ∷ ys) ]
    else parse_digits 0 (x ∷ xs)

abbrev pub digits_onto : ℕ → ℕ → Bytes → Bytes
digits_onto zero n text = text
digits_onto (suc fuel) n text =
    let more = digits_onto fuel (n / 10) ((b'0' + n % 10) ∷ text) in
    if ltb n 10 then (b'0' + n) ∷ text else more

-- A u64 has 20 digits at most.
unfoldable pub to_string : ℕ → Bytes
to_string n = digits_onto 20 n []

abbrev pub bytes_unit : Bytes
bytes_unit = b'b' ∷ b'y' ∷ b't' ∷ b'e' ∷ b's' ∷ b' ' ∷ []

pub record ParsedContentRange : Type 0 where
  pub range_start : ℕ
  pub range_end : ℕ
  pub complete_length : Option ℕ

-- A `*` stands for a length that is not known.
abbrev pub parse_complete_length : Bytes → Option (Option ℕ)
parse_complete_length (x ∷ []) =
    if x == b'*' then some none else option_map some (parse_u64 (x ∷ []))
parse_complete_length text = option_map some (parse_u64 text)

unfoldable pub parse_content_range : Bytes → Option ParsedContentRange
parse_content_range value = strip_prefix bytes_unit value >>=? λ value.
    split_once b'/' value >>=? λ (range, complete_length).
    split_once b'-' range >>=? λ (start, last). parse_u64 start >>=? λ start.
    parse_u64 last >>=? λ last. parse_complete_length complete_length >>=? λ complete_length.
    some (record { range_start = start; range_end = last; complete_length = complete_length })

pub record ResponseExtent : Type 0 where
  pub response_end : Option ℕ
  pub resource_end : Option ℕ

abbrev pub extent_of : ℕ → Option ParsedContentRange → Result PlaybackError ResponseExtent
extent_of response_start none =
    err (media_parse_detail "range response had unsupported Content-Range header")
extent_of response_start (some parsed) =
    if not (parsed.range_start == response_start)
    then err (media_parse_detail "range response started at another byte")
    else ok (record {
      response_end = some (saturating_add parsed.range_end 1);
      resource_end = parsed.complete_length;
    })

abbrev pub extent_from : Option ℕ → Option (Option Bytes) → ℕ → Result PlaybackError ResponseExtent
extent_from content_length none response_start = ok (record {
  response_end = option_map (saturating_add response_start) content_length;
  resource_end = none;
})
extent_from content_length (some none) response_start =
    err (media_parse_detail "range response had invalid Content-Range header")
extent_from content_length (some (some text)) response_start =
    extent_of response_start (parse_content_range text)

unfoldable pub response_extent : HttpResponse → ℕ → Result PlaybackError ResponseExtent
response_extent response response_start =
    extent_from response.content_length response.content_range response_start

abbrev pub validate_content_range : ℕ → Option (Option Bytes) → Result PlaybackError (Unit {0})
validate_content_range expected_start none =
    err (media_parse_detail "range request was not honored: missing Content-Range")
validate_content_range expected_start (some none) =
    err (media_parse_detail "range request was not honored: invalid Content-Range header")
validate_content_range expected_start (some (some text)) =
    if not (starts_with (bytes_unit ++ (to_string expected_start ++ (b'-' ∷ []))) text)
    then err (media_parse_detail "range request was not honored: expected Content-Range to start")
    else ok tt

unfoldable pub validate_resume_response : HttpResponse → ℕ → Result PlaybackError (Unit {0})
validate_resume_response response expected_start =
    if expected_start == 0
    then ok tt
    else (if not (response.status == 206)
        then err (media_parse_detail "range request was not honored: expected 206")
        else validate_content_range expected_start response.content_range)
