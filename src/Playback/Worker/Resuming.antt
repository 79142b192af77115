-- ===== src/Playback/Worker/Resuming.antt =====
-- worker.rs: where a track that is prepared goes on.
use discord_voice_service.Common.{ℕ, ◌≡◌, false, Option, none, some, String, Result, ok}
use discord_voice_service.Playback.Error.{PlaybackError}
use discord_voice_service.Playback.OpusQueue.{OpusFrameQueue, is_empty}
use discord_voice_service.Playback.OpusQueue.Invariant.{IsValid}
use discord_voice_service.Playback.Source.{PlaybackSource}
use discord_voice_service.Playback.Opening.{Opened}
use discord_voice_service.Playback.Opening.Resuming.{Resumes}
use discord_voice_service.Playback.Worker.{PlaybackWorker}

abbrev pub IsOpened : {N : Type 0} → Option (Opened N) → Type 0
IsOpened (some (ok opened, r, n)) = Unit
IsOpened _ = ⊥

-- A track that was prepared was recovered for the position `sent` and goes on there, and the limits of the
-- queue hold in any outcome.
abbrev pub GoesOn :
    {Pcm Decoder Encoder N : Type 0}
    → ℕ
    → String
    → Option (Opened N)
    → Option (
        Result PlaybackError PlaybackSource
        × PlaybackWorker Pcm Decoder Encoder
        × OpusFrameQueue
        × N)
    → Type 0
GoesOn sent video_id opened none = Unit
GoesOn sent video_id opened (some (ok source, w, queue, n)) =
    IsOpened opened
    × Resumes sent opened
    × (w.position.sent_duration_samples ≡ sent)
    × (w.current_video_id ≡ some video_id)
    × (is_empty queue ≡ false)
    × IsValid queue
GoesOn sent video_id opened (some (_, w, queue, n)) = IsValid queue
