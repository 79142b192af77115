-- ===== src/Playback/HttpStream/Pieces.antt =====
-- http_stream.rs: what waits and what is to come of a resource, and the chunk that is handed out.
use discord_voice_service.Common.{
  ℕ, zero, suc, ◌+◌, ◌≤◌, ◌<◌, min, ◌≡◌, refl, sym, ap, subst, ◌∙◌, inr, true, false, Option, none,
  some, List, [], ◌∷◌, ◌++◌, String, length, take, drop, ok, arith, length-append, length-drop,
  length-take, drop-append_length, take-append-drop, append_assoc,
}
use discord_voice_service.Common.Words.{u64_max, saturating_add}
use discord_voice_service.Common.Bytes.{Bytes}
use discord_voice_service.Playback.Position.{advance_bytes}
use discord_voice_service.Playback.HttpRange.{BodyEvent, received, failed, stalled, HttpResponse}
use discord_voice_service.Playback.HttpStream.{
  HttpOpusStream, Http, Reading, offset, is_nonempty, hand_out, take_pending_chunk,
  max_read_chunk_bytes, is_error_status,
}

-- The bytes of a body, as far as the connection holds.
abbrev pub bytes_of : List BodyEvent → Bytes
bytes_of [] = []
bytes_of (received chunk ∷ body) = chunk ++ bytes_of body
bytes_of (failed e ∷ body) = []
bytes_of (stalled ∷ body) = bytes_of body

abbrev pub to_come : Option (List BodyEvent) → Bytes
to_come none = []
to_come (some body) = bytes_of body

abbrev pub IsPrefix : Bytes → Bytes → Type 0
IsPrefix xs ys = (rest : Bytes) × (xs ++ rest ≡ ys)

abbrev pub Answers : Option ℕ → ℕ → Type 0
Answers none status = Unit
Answers (some first) status = status ≡ 206

abbrev pub first_of : Option ℕ → ℕ
first_of none = 0
first_of (some first) = first

-- A server that keeps to HTTP: a response that is no error and answers a whole request, or a range
-- request with 206, carries bytes of the resource from the first that was asked for.
abbrev pub Serves : {N : Type 0} → Bytes → Http N → Type 0
Serves {N} resource client =
    (n : N) (url : String) (start : Option ℕ) (r : HttpResponse)
    → (client.send n url start).0 ≡ some (inr r)
    → is_error_status r.status ≡ false
    → Answers start r.status
    → IsPrefix (bytes_of r.body) (drop (first_of start) resource)

-- What waits, and what the open response still carries, comes next in the resource.
abbrev pub Ahead : Bytes → HttpOpusStream → Type 0
Ahead resource s = IsPrefix (s.pending ++ to_come s.response) (drop (offset s) resource)

-- After a read that started at `first`: a chunk is what the resource has there and the offset is past
-- it, and in any other outcome the offset is where it was.
abbrev pub Delivered : {N : Type 0} → Bytes → ℕ → Reading N → Type 0
Delivered resource first (some (ok (some chunk)), s, n) =
    IsPrefix chunk (drop first resource)
    × (offset s ≡ first + length chunk)
    × (0 < length chunk)
    × (length chunk ≤ max_read_chunk_bytes)
    × Ahead resource s
Delivered resource first (_, s, n) = (offset s ≡ first) × Ahead resource s

pub drop-nil : (k : ℕ) → drop {A = ℕ} k [] ≡ []
drop-nil zero = refl
drop-nil (suc k) = refl

pub drop-add : (a b : ℕ) (xs : Bytes) → drop (a + b) xs ≡ drop b (drop a xs)
drop-add zero b xs = let e : zero + b ≡ b = omega arith in rw e
drop-add (suc a) b [] = drop-nil (suc a + b) ∙ sym (drop-nil b)
drop-add (suc a) b (x ∷ xs) =
    let e : suc a + b ≡ suc (a + b) = omega arith in rw e (drop-add a b xs)

pub IsPrefix-next :
    (first : ℕ) (chunk rest resource : Bytes)
    → IsPrefix (chunk ++ rest) (drop first resource)
    → IsPrefix rest (drop (first + length chunk) resource)
IsPrefix-next first chunk rest resource (end, e) = (
  end,
  sym (drop-append_length chunk (rest ++ end))
      ∙ ap (drop (length chunk)) (sym (append_assoc chunk rest end) ∙ e)
      ∙ sym (drop-add first (length chunk) resource),
)

pub IsPrefix-append : (xs ys zs : Bytes) → IsPrefix (xs ++ ys) zs → IsPrefix xs zs
IsPrefix-append xs ys zs (end, e) = (ys ++ end, sym (append_assoc xs ys end) ∙ e)

-- A byte that is handed out lies in the resource.
pub IsPrefix-length-le :
    (first : ℕ) (chunk resource : Bytes)
    → IsPrefix chunk (drop first resource)
    → 0 < length chunk
    → first + length chunk ≤ length resource
IsPrefix-length-le first chunk resource (end, e) h =
    omega (arith, ap length e, length-append {0} {A = ℕ} chunk end, length-drop {0} first resource)

pub IsPrefix-resp : (xs ys zs : Bytes) → xs ≡ ys → IsPrefix xs zs → IsPrefix ys zs
IsPrefix-resp xs ys zs e h = subst (λ l. IsPrefix l zs) e h

pub is_nonempty→pos : (xs : Bytes) → is_nonempty xs ≡ true → 0 < length xs
is_nonempty→pos [] h = cc
is_nonempty→pos (x ∷ xs) h = omega arith

pub is_nonempty_false→nil : (xs : Bytes) → is_nonempty xs ≡ false → xs ≡ []
is_nonempty_false→nil [] h = refl
is_nonempty_false→nil (x ∷ xs) h = cc

module _ {N : Type 0} (resource : Bytes) (small : length resource ≤ u64_max) where
  pub hand_out-Delivered :
      (s : HttpOpusStream) (n : N)
      → is_nonempty s.pending ≡ true
      → Ahead resource s
      → Delivered resource (offset s) (hand_out s n)
  unfolding take_pending_chunk advance_bytes
  hand_out-Delivered s n some_wait ahead =
      let k = min (length s.pending) max_read_chunk_bytes in
      let chunk = take k s.pending in
      let later = drop k s.pending ++ to_come s.response in
      let split : s.pending ++ to_come s.response ≡ chunk ++ later =
        ap (λ l. l ++ to_come s.response) (sym (take-append-drop k s.pending))
        ∙ append_assoc chunk (drop k s.pending) (to_come s.response) in
      let ahead' : IsPrefix (chunk ++ later) (drop (offset s) resource) =
        IsPrefix-resp _ _ (drop (offset s) resource) split ahead in
      let here : IsPrefix chunk (drop (offset s) resource) =
        IsPrefix-append chunk later (drop (offset s) resource) ahead' in
      let long : length chunk ≡ k = omega (arith, length-take {0} k s.pending) in
      let filled : 0 < length chunk = omega (arith, is_nonempty→pos s.pending some_wait, long) in
      let within = IsPrefix-length-le (offset s) chunk resource here filled in
      let moved : saturating_add (offset s) (length chunk) ≡ offset s + length chunk =
        omega (arith, within, small) in
      rw some_wait (
        here,
        moved,
        filled,
        omega (arith, long),
        subst (λ first. IsPrefix later (drop first resource)) (sym moved)
            (IsPrefix-next (offset s) chunk later resource ahead'),
      )
