-- ===== src/Playback/Worker/Returning.antt =====
-- worker.rs: filling the queue comes to an end.
use discord_voice_service.Common.{
  ℕ, zero, suc, ◌+◌, ◌≤◌, ◌<◌, ◌≡◌, inl, inr, ◌⊎◌, Bool, true, false, Option, String, length,
  Result, NoPanic, ok, err, panic, arith, Bool-cases,
}
use discord_voice_service.Common.Words.{u64_max}
use discord_voice_service.Common.Bytes.{Bytes}
use discord_voice_service.Playback.Error.{PlaybackError}
use discord_voice_service.Playback.Demux.{WebmParser}
use discord_voice_service.Playback.Normalizer.{Codec}
use discord_voice_service.Playback.Normalizer.Total.{IsTotal}
use discord_voice_service.Playback.Worker.Total.{fill_round-NoPanic}
use discord_voice_service.Playback.HttpStream.{Http, offset}
use discord_voice_service.Playback.HttpStream.Pieces.{Serves}
use discord_voice_service.Playback.Recovery.{Resolver}
use discord_voice_service.Playback.Opening.Reaching.{IsFound, IsInside}
use discord_voice_service.Playback.Worker.{Filling, is_enough, fill_round, go_on, fill_loop}
use discord_voice_service.Playback.Worker.Progress.{Progress, fill_round-Progress}

module _ {Pcm Decoder Encoder N : Type 0} (codec : Codec Pcm Decoder Encoder)
    (total : IsTotal codec) (client : Http N) (resolver : Resolver N) (parser : WebmParser)
    (resource : Bytes) (small : length resource ≤ u64_max) (serves : Serves resource client)
    (video_id : Option String) (target : ℕ) where
  abbrev pub Comes : Filling Pcm Decoder Encoder N → Type 0
  Comes s = (fuel : ℕ) × IsFound (fill_loop codec client resolver parser fuel video_id target s)

  -- One round and what follows it.
  Comes-next :
      (s : Filling Pcm Decoder Encoder N)
      → IsInside resource s.source.stream
      → ((s' : Filling Pcm Decoder Encoder N)
          → IsInside resource s'.source.stream
          → ((offset s.source.stream < offset s'.source.stream)
              ⊎ ((offset s.source.stream ≡ offset s'.source.stream)
                  × (length s'.source.pending_packets < length s.source.pending_packets)))
          → Comes s')
      → Comes s
  unfolding fill_loop
  Comes-next s inside next = elim (Bool-cases (is_enough codec client resolver parser target s)) [
    | inl enough ↦ (1, rw enough tt)
    | inr more ↦
        let (fuel, found) =
          going (fill_round codec client resolver parser video_id target s)
            (fill_round-Progress codec client resolver parser resource small serves video_id target
              s inside)
            (fill_round-NoPanic codec total client resolver parser video_id target s) in
        (suc fuel, rw more found)
  ]
    where
      going :
          (round : Result PlaybackError Bool × Filling Pcm Decoder Encoder N)
          → Progress codec client resolver parser resource s round
          → NoPanic round.0
          → (fuel : ℕ) × IsFound (
              go_on codec client resolver parser
                (fill_loop codec client resolver parser fuel video_id target)
                round)
      going (ok true, s') (inside', on) h = next s' inside' on
      going (ok false, s') on h = (0, tt)
      going (err e, s') on h = (0, tt)
      going (panic, s') on h = absurd h

  Comes-within :
      (bytes packets : ℕ) (s : Filling Pcm Decoder Encoder N)
      → IsInside resource s.source.stream
      → length resource ≤ offset s.source.stream + bytes
      → length s.source.pending_packets ≤ packets
      → Comes s
  Comes-within zero zero s inside hb hp = Comes-next s inside (λ s' (ahead, within) on. elim on [
    | inl moved ↦ absurd (omega arith)
    | inr (same, fewer) ↦ absurd (omega arith)
  ])
  Comes-within zero (suc packets) s inside hb hp = Comes-next s inside (λ s' (ahead, within) on.
      elim on [
        | inl moved ↦ absurd (omega arith)
        | inr (same, fewer) ↦
            Comes-within zero packets s' (ahead, within) (omega arith) (omega arith)
      ])
  Comes-within (suc bytes) zero s inside hb hp = Comes-next s inside (λ s' (ahead, within) on.
      elim on [
        | inl moved ↦
            Comes-within bytes (length s'.source.pending_packets) s' (ahead, within) (omega arith)
              (omega arith)
        | inr (same, fewer) ↦ absurd (omega arith)
      ])
  Comes-within (suc bytes) (suc packets) s inside hb hp =
      Comes-next s inside (λ s' (ahead, within) on. elim on [
        | inl moved ↦
            Comes-within bytes (length s'.source.pending_packets) s' (ahead, within) (omega arith)
              (omega arith)
        | inr (same, fewer) ↦
            Comes-within (suc bytes) packets s' (ahead, within) (omega arith) (omega arith)
      ])

  -- Against a server that keeps to HTTP, filling the queue comes to an end, with success or an error,
  -- whatever the demuxer makes of the bytes and a codec that does not panic of the packets: some number of
  -- rounds is enough, each of their reads ends, and nothing panics.
  pub fill_loop-Comes :
      (s : Filling Pcm Decoder Encoder N) → IsInside resource s.source.stream → Comes s
  fill_loop-Comes s inside =
      Comes-within (length resource) (length s.source.pending_packets) s inside (omega arith)
        (omega arith)
