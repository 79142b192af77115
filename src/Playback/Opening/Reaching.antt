-- ===== src/Playback/Opening/Reaching.antt =====
-- recovery.rs: opening a track comes to an end, since each chunk moves the stream on.
use discord_voice_service.Common.{
  ℕ, zero, suc, ◌+◌, ◌≤◌, ◌<◌, ◌≡◌, refl, sym, subst, inl, inr, Option, none, some, List, [], ◌∷◌,
  String, Ensures, length, Result, ok, err, panic, arith, Bool-cases,
}
use discord_voice_service.Common.Words.{u64_max}
use discord_voice_service.Common.Bytes.{Bytes}
use discord_voice_service.Playback.Error.{PlaybackError}
use discord_voice_service.Playback.Position.{DemuxedPacket}
use discord_voice_service.Playback.Demux.{WebmParser, WebmOpusDemux, drain_packets, push_bytes}
use discord_voice_service.Playback.HttpStream.{HttpOpusStream, Http, Reading, offset, read_chunk}
use discord_voice_service.Playback.HttpStream.Pieces.{Serves, Ahead, Delivered, IsPrefix-length-le}
use discord_voice_service.Playback.HttpStream.Delivery.{read_chunk-Delivered}
use discord_voice_service.Playback.HttpStream.Ending.{Returns, read_chunk-Returns}
use discord_voice_service.Playback.Demux.Draining.{IsProgress, drain_packets-Ensures}
use discord_voice_service.Playback.Recovery.{or_timeout, read_chunk_with_timeout}
use discord_voice_service.Playback.Recovery.Retrying.{or_timeout-Delivered}
use discord_voice_service.Playback.Opening.{
  Buffered, keep_packet, keep_packets, kept, absorb, wants_more, absorbed, on_chunk, fill_loop,
}

-- A value or an error: not the end of the fuel, and no panic, such as a read that never ends.
abbrev pub IsFound {ℓ κ} : {A : Type ℓ} {B : Type κ} → Option (Result PlaybackError A × B) → Type 0
IsFound none = ⊥
IsFound (some (panic, b)) = ⊥
IsFound (some (ok a, b)) = Unit
IsFound (some (err e, b)) = Unit

abbrev pub NotPanic {ℓ} : {A : Type ℓ} → Result PlaybackError A → Type 0
NotPanic panic = ⊥
NotPanic (ok a) = Unit
NotPanic (err e) = Unit

-- A read comes back or waits, with its timeout as an error.
pub or_timeout-NotPanic :
    {N : Type 0} (url : String) (reading : Reading N)
    → Returns reading
    → NotPanic (or_timeout url reading).0
or_timeout-NotPanic url (none, s, n) h = tt
or_timeout-NotPanic url (some (ok chunk), s, n) h = tt
or_timeout-NotPanic url (some (err e), s, n) h = tt
or_timeout-NotPanic url (some panic, s, n) h = h

keep_packets-stream :
    (resume : ℕ) (packets : List DemuxedPacket) (b : Buffered)
    → (keep_packets resume packets b).stream ≡ b.stream
unfolding keep_packets keep_packet
keep_packets-stream resume [] b = refl
keep_packets-stream resume (packet ∷ packets) b =
    keep_packets-stream resume packets (keep_packet resume packet b)

abbrev pub KeepsStream : HttpOpusStream → Result PlaybackError Buffered → Type 0
KeepsStream stream (ok b) = b.stream ≡ stream
KeepsStream stream (err e) = Unit
KeepsStream stream panic = ⊥

pub absorb-KeepsStream :
    (parser : WebmParser) (resume : ℕ) (chunk : Bytes) (b : Buffered)
    → KeepsStream b.stream (absorb parser resume chunk b)
unfolding absorb
absorb-KeepsStream parser resume chunk b =
    kept-KeepsStream (drain_packets parser (push_bytes b.demux chunk))
      (drain_packets-Ensures parser (push_bytes b.demux chunk))
  where
    kept-KeepsStream :
        (drained : Result PlaybackError (List DemuxedPacket × WebmOpusDemux))
        → Ensures (IsProgress parser (push_bytes b.demux chunk)) drained
        → KeepsStream b.stream (kept resume b drained)
    kept-KeepsStream (ok (packets, demux)) h =
        keep_packets-stream resume packets (record b { demux = demux })
    kept-KeepsStream (err e) h = tt
    kept-KeepsStream panic h = h

-- A stream inside of the resource.
abbrev pub IsInside : Bytes → HttpOpusStream → Type 0
IsInside resource stream = Ahead resource stream × (offset stream ≤ length resource)

module _ {N : Type 0} (resource : Bytes) (small : length resource ≤ u64_max) (client : Http N)
    (serves : Serves resource client) (parser : WebmParser) (resume : ℕ) where
  -- A chunk that was read leaves the stream inside.
  pub Delivered-IsInside :
      (first : ℕ) (chunk : Bytes) (stream : HttpOpusStream) (n : N)
      → Delivered resource first (some (ok (some chunk)), stream, n)
      → IsInside resource stream × (first < offset stream)
  Delivered-IsInside first chunk stream n (here, moved, filled, _, ahead) =
      let within = IsPrefix-length-le first chunk resource here filled in
      ((ahead, omega (arith, within, moved)), omega (arith, filled, moved))

  pub absorbed-IsFound :
      (next : Buffered → N → Option (Result PlaybackError Buffered × N)) (n : N)
      (stream : HttpOpusStream)
      → ((b : Buffered) (n : N) → b.stream ≡ stream → IsFound (next b n))
      → (result : Result PlaybackError Buffered) → KeepsStream stream result
      → IsFound (absorbed client parser next n result)
  absorbed-IsFound next n stream h (ok b) same = h b n same
  absorbed-IsFound next n stream h (err e) same = tt
  absorbed-IsFound next n stream h panic same = same

  -- A round, where the later ones come to an end from each stream inside that is further on.
  on_chunk-IsFound :
      (next : Buffered → N → Option (Result PlaybackError Buffered × N)) (first : ℕ)
      → ((b : Buffered) (n : N)
          → IsInside resource b.stream
          → first < offset b.stream
          → IsFound (next b n))
      → (b : Buffered) (result : Result PlaybackError (Option Bytes)) (stream : HttpOpusStream)
        (n : N)
      → Delivered resource first (some result, stream, n)
      → NotPanic result
      → IsFound (on_chunk client parser next resume b (result, stream, n))
  on_chunk-IsFound next first ih b (ok none) stream n h back = tt
  on_chunk-IsFound next first ih b (err e) stream n h back = tt
  on_chunk-IsFound next first ih b panic stream n h back = back
  on_chunk-IsFound next first ih b (ok (some chunk)) stream n h back =
      let (inside, on) = Delivered-IsInside first chunk stream n h in
      absorbed-IsFound next n stream
        (λ b' n' same.
          ih b' n' (subst (IsInside resource) (sym same) inside)
            (subst (λ s. first < offset s) (sym same) on))
        _ (absorb-KeepsStream parser resume chunk (record b { stream = stream }))

  pub fill_loop-IsFound :
      (fuel : ℕ) (url : String) (b : Buffered) (n : N)
      → IsInside resource b.stream
      → length resource < offset b.stream + fuel
      → IsFound (fill_loop client parser fuel url resume b n)
  unfolding fill_loop read_chunk_with_timeout
  fill_loop-IsFound zero url b n (ahead, inside) enough = absurd (omega arith)
  fill_loop-IsFound (suc fuel) url b n (ahead, inside) enough =
      elim (Bool-cases (wants_more resume b)) [
        | inl more ↦ rw more (
            on_chunk-IsFound (fill_loop client parser fuel url resume) (offset b.stream)
              (λ b' n' inside' on. fill_loop-IsFound fuel url b' n' inside' (omega arith)) b _ _ _
              (or_timeout-Delivered resource small client serves (offset b.stream) url
                (read_chunk client b.stream n)
                (read_chunk-Delivered resource small client serves b.stream n ahead))
              (or_timeout-NotPanic url (read_chunk client b.stream n)
                (read_chunk-Returns client b.stream n)))
        | inr done ↦ rw done tt
      ]
