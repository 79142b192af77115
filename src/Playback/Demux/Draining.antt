-- ===== src/Playback/Demux/Draining.antt =====
-- webm_demux.rs: draining gives packets only for bytes that it takes away.
use discord_voice_service.Common.{
  ℕ, ◌<◌, ◌≡◌, refl, sym, ap, subst, Bool, true, ◌&&◌, Option, none, some, List, [], ◌∷◌, ◌++◌, min,
  ltb, length, drop, Result, ok, err, panic, ◌>>=◌, Ensures, length-drop, arith, ◌⊎◌, inl, inr,
  Bool-cases, String, not,
}
use discord_voice_service.Common.Bytes.{Bytes}
use discord_voice_service.Playback.Error.{PlaybackError}
use discord_voice_service.Playback.Demux.Timestamps.{frames_to_packets-Ensures}
use discord_voice_service.Playback.Position.{DemuxedPacket}
use discord_voice_service.Playback.Demux.{
  WebmParser, WebmDemuxState, WebmOpusDemux, ParseOutcome, complete, incomplete, stalled,
  is_nonempty, take_outcome, drain_pending, drain_packets, parse_available, Block, Tag,
  timestamp_scale, timestamp_tag, track_entry, simple_block, block, block_group, other_tag, Item,
  tag, unexpected_eof, corrupted, extract_block, block_frames, is_target_track,
  map_webm_coercion_error, group_packets, extract_block_group, last_block, process_tag, parse_items,
}

-- The bytes that are left after the tags that the parser has read whole: none at the end of the bytes,
-- and where they end inside a tag, those from the start of this tag on. At a tag that is corrupted, all.
abbrev pub unread : List Item → Bytes → Bytes
unread [] bytes = []
unread (unexpected_eof tag_start ∷ items) bytes = drop (min tag_start (length bytes)) bytes
unread (corrupted ∷ items) bytes = bytes
unread (tag t ∷ items) bytes = unread items bytes

-- A drain gives nothing and changes nothing, or it takes the bytes of the tags that were read away from
-- the front, at least one, and leaves those that were not read.
abbrev pub IsProgress : WebmParser → WebmOpusDemux → List DemuxedPacket × WebmOpusDemux → Type 0
IsProgress parser d (packets, d') =
    ((packets ≡ []) × (d' ≡ d))
    ⊎ ((d'.pending ≡ unread (parser.iterate d.pending) d.pending)
        × (length d'.pending < length d.pending))

ltb_pos : (n : ℕ) (b : Bool) → (ltb 0 n && b) ≡ true → 0 < n
ltb_pos n b e = ground arith

abbrev NoPanic {ℓ} : {A : Type ℓ} → Result PlaybackError A → Type 0
NoPanic = Ensures (λ a. Unit {0})

-- What an outcome says of the bytes that are left.
abbrev LeavesUnread : List Item → Bytes → ParseOutcome → Type 0
LeavesUnread items bytes (complete s packets) = unread items bytes ≡ []
LeavesUnread items bytes (incomplete s packets tail_start) =
    unread items bytes ≡ drop (min tail_start (length bytes)) bytes
LeavesUnread items bytes stalled = Unit

abbrev Leaves : List Item → Bytes → Result PlaybackError ParseOutcome → Type 0
Leaves items bytes = Ensures (LeavesUnread items bytes)

take_outcome-IsProgress :
    (parser : WebmParser) (d : WebmOpusDemux) (outcome : ParseOutcome)
    → 0 < length d.pending
    → LeavesUnread (parser.iterate d.pending) d.pending outcome
    → IsProgress parser d (take_outcome d outcome)
unfolding take_outcome
take_outcome-IsProgress parser d stalled h left = inl (refl, refl)
take_outcome-IsProgress parser d (complete s packets) h left = inr (sym left, h)
take_outcome-IsProgress parser d (incomplete s packets tail_start) h left =
    elim (Bool-cases (ltb 0 tail_start && is_nonempty packets)) [
      | inl consumed ↦ rw consumed (
          inr (
            sym left,
            omega (
              arith,
              length-drop (min tail_start (length d.pending)) d.pending,
              ltb_pos tail_start (is_nonempty packets) consumed,
            ),
          ))
      | inr kept ↦ rw kept (inl (refl, refl))
    ]

NoPanic-bind {ℓ κ} :
    {A : Type ℓ} {B : Type κ} (m : Result PlaybackError A) (k : A → Result PlaybackError B)
    → NoPanic m
    → ((a : A) → NoPanic (k a))
    → NoPanic (m >>= k)
NoPanic-bind (ok a) k n h = h a
NoPanic-bind (err e) k n h = tt
NoPanic-bind panic k n h = n

NoPanic-coerced {ℓ} : {A : Type ℓ} (r : String ⊎ A) → NoPanic (map_webm_coercion_error r)
NoPanic-coerced (inl message) = tt
NoPanic-coerced (inr a) = tt

Ensures-NoPanic {ℓ} :
    {A : Type ℓ} (P : A → Type 0) (m : Result PlaybackError A) → Ensures P m → NoPanic m
Ensures-NoPanic P (ok a) p = tt
Ensures-NoPanic P (err e) p = tt
Ensures-NoPanic P panic p = p

extract_block-NoPanic : (s : WebmDemuxState) (b : Block) → NoPanic (extract_block s b)
unfolding extract_block block_frames
extract_block-NoPanic s b = elim (Bool-cases (not (is_target_track s b.track))) [
  | inl other ↦ rw other tt
  | inr target ↦ rw target (
      NoPanic-bind (map_webm_coercion_error b.frame_data) _ (NoPanic-coerced b.frame_data)
        λ frames. Ensures-NoPanic _ _ (frames_to_packets-Ensures s b.timestamp frames))
]

group_packets-NoPanic :
    (parser : WebmParser) (s : WebmDemuxState) (found : Option Bytes)
    → NoPanic (group_packets parser s found)
unfolding group_packets
group_packets-NoPanic parser s none = tt
group_packets-NoPanic parser s (some bytes) =
    NoPanic-bind _ _ (NoPanic-coerced (parser.read_block bytes)) (extract_block-NoPanic s)

process_tag-NoPanic :
    (parser : WebmParser) (s : WebmDemuxState) (t : Tag) → NoPanic (process_tag parser s t)
unfolding process_tag extract_block_group
process_tag-NoPanic parser s (timestamp_scale scale) = tt
process_tag-NoPanic parser s (timestamp_tag t) = tt
process_tag-NoPanic parser s (track_entry children) = tt
process_tag-NoPanic parser s (simple_block bytes) =
    NoPanic-bind _ _ (NoPanic-coerced (parser.read_simple_block bytes))
      λ b. NoPanic-bind _ _ (extract_block-NoPanic s b) λ packets. tt
process_tag-NoPanic parser s (block bytes) =
    NoPanic-bind _ _ (NoPanic-coerced (parser.read_block bytes))
      λ b. NoPanic-bind _ _ (extract_block-NoPanic s b) λ packets. tt
process_tag-NoPanic parser s (block_group children) =
    NoPanic-bind _ _ (group_packets-NoPanic parser s (last_block none children)) λ packets. tt
process_tag-NoPanic parser s other_tag = tt

parse_items-Leaves :
    (parser : WebmParser) (s : WebmDemuxState) (packets : List DemuxedPacket) (items : List Item)
    (bytes : Bytes)
    → Leaves items bytes (parse_items parser s packets items)
unfolding parse_items
parse_items-Leaves parser s packets [] bytes = refl
parse_items-Leaves parser s packets (unexpected_eof tag_start ∷ rest) bytes = refl
parse_items-Leaves parser s packets (corrupted ∷ rest) bytes = tt
parse_items-Leaves parser s packets (tag t ∷ rest) bytes =
    after_tag (process_tag parser s t) (process_tag-NoPanic parser s t)
      λ s' more. parse_items-Leaves parser s' more rest bytes
  where
    after_tag :
        (r : Result PlaybackError (WebmDemuxState × List DemuxedPacket))
        → NoPanic r
        → ((s' : WebmDemuxState) (more : List DemuxedPacket)
            → Leaves rest bytes (parse_items parser s' more rest))
        → Leaves rest bytes (r >>= λ r. parse_items parser r.0 (packets ++ r.1) rest)
    after_tag (ok (s', more)) n h = h s' (packets ++ more)
    after_tag (err e) n h = tt
    after_tag panic n h = n

drain_pending-Ensures :
    (parser : WebmParser) (d : WebmOpusDemux) (bytes : Bytes)
    → d.pending ≡ bytes
    → Ensures (IsProgress parser d) (drain_pending parser d bytes)
unfolding drain_pending
drain_pending-Ensures parser d [] e = inl (refl, refl)
drain_pending-Ensures parser d (b ∷ bytes) e =
    on_outcome (parse_available parser d.state (b ∷ bytes)) (
      unfold parse_available in
      subst (λ l. Leaves (parser.iterate l) l (parse_available parser d.state (b ∷ bytes))) (sym e)
        (parse_items-Leaves parser d.state [] (parser.iterate (b ∷ bytes)) (b ∷ bytes)))
  where
    on_outcome :
        (r : Result PlaybackError ParseOutcome)
        → Leaves (parser.iterate d.pending) d.pending r
        → Ensures (IsProgress parser d) (r >>= λ outcome. ok (take_outcome d outcome))
    on_outcome (ok outcome) left =
        take_outcome-IsProgress parser d outcome (omega (arith, ap length e)) left
    on_outcome (err x) left = tt
    on_outcome panic left = left

-- Whatever the parser gives for the pending bytes, a drain does not panic, and either gives no packet
-- and leaves the demuxer as it was, or takes the bytes of all tags that the parser has read whole away,
-- at least one byte, and leaves just those that it has not read, so that no byte is the source of packets
-- twice.
pub drain_packets-Ensures :
    (parser : WebmParser) (d : WebmOpusDemux)
    → Ensures (IsProgress parser d) (drain_packets parser d)
unfolding drain_packets
drain_packets-Ensures parser d = drain_pending-Ensures parser d d.pending refl
