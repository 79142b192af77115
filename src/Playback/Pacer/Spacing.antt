-- ===== src/Playback/Pacer/Spacing.antt =====
-- pacer.rs: the spacing of the packets of a stream that waits for each deadline.
use discord_voice_service.Common.{
  ℕ, ◌+◌, ◌≡◌, ◌&&◌, ltb, leb, if◌then◌else◌, arith, List, [], ◌∷◌, length,
}
use discord_voice_service.Playback.Pacer.{
  AudioPacer, next_deadline, reset_after_interruption_at, is_late, set_deadlines, count_emitted,
  PacedPacketKind, track, mark_sent, mark_emitted,
}

-- One packet that is sent: how long after its deadline the send starts, and its duration.
pub record Send : Type 0 where
  pub lateness : ℕ
  pub duration : ℕ

-- `wait_for`: the send starts where the deadline has come, late by what the scheduler took.
abbrev pub wait_for : AudioPacer → Send → AudioPacer
wait_for pacer s = mark_emitted pacer s.duration (next_deadline pacer + s.lateness)

abbrev pub wait_for_all : AudioPacer → List Send → AudioPacer
wait_for_all pacer [] = pacer
wait_for_all pacer (s ∷ rest) = wait_for_all (wait_for pacer s) rest

abbrev pub total : List Send → ℕ
total [] = 0
total (s ∷ rest) = s.lateness + s.duration + total rest

-- The packets that started a whole duration behind their deadline, or more.
abbrev pub interruptions : List Send → ℕ
interruptions [] = 0
interruptions (s ∷ rest) =
    (if ltb 0 s.duration && leb s.duration s.lateness then 1 else 0) + interruptions rest

-- Each packet moves the deadline to its duration after the start of its send, late or not.
mark_sent-next_deadline :
    (pacer : AudioPacer) (kind : PacedPacketKind) (scheduled duration now : ℕ)
    → next_deadline (mark_sent pacer kind scheduled duration now) ≡ now + duration
unfolding next_deadline mark_sent is_late reset_after_interruption_at set_deadlines count_emitted
mark_sent-next_deadline pacer kind scheduled duration now = ground arith

wait_for-counts :
    (pacer : AudioPacer) (s : Send)
    → ((wait_for pacer s).emitted_frames ≡ pacer.emitted_frames + 1)
      × ((wait_for pacer s).clock_reset_count
          ≡ pacer.clock_reset_count
            + (if ltb 0 s.duration && leb s.duration s.lateness then 1 else 0))
      × ((wait_for pacer s).tempo_rebase_count
          ≡ pacer.tempo_rebase_count
            + (if ltb 0 s.duration && leb s.duration s.lateness then 1 else 0))
unfolding mark_emitted mark_sent is_late reset_after_interruption_at set_deadlines count_emitted
    next_deadline
wait_for-counts pacer s = ground arith

-- After any number of packets the deadline is behind that of the first one by the sum of what they
-- last and of what each started late, every packet is counted once, and the media clock is reset, and
-- the tempo rebased, exactly once for every packet that started at least its own duration late.
pub wait_for_all_lem :
    (pacer : AudioPacer) (sends : List Send)
    → (next_deadline (wait_for_all pacer sends) ≡ next_deadline pacer + total sends)
      × ((wait_for_all pacer sends).emitted_frames ≡ pacer.emitted_frames + length sends)
      × ((wait_for_all pacer sends).clock_reset_count
          ≡ pacer.clock_reset_count + interruptions sends)
      × ((wait_for_all pacer sends).tempo_rebase_count
          ≡ pacer.tempo_rebase_count + interruptions sends)
wait_for_all_lem pacer [] = (omega arith, omega arith, omega arith, omega arith)
wait_for_all_lem pacer (s ∷ rest) =
    let (deadline, frames, resets, rebases) = wait_for_all_lem (wait_for pacer s) rest in
    let (one_frame, one_reset, one_rebase) = wait_for-counts pacer s in
    let d : next_deadline (wait_for pacer s) ≡ next_deadline pacer + s.lateness + s.duration =
      unfold mark_emitted in
      mark_sent-next_deadline pacer track (next_deadline pacer) s.duration
        (next_deadline pacer + s.lateness) in
    (omega arith, omega arith, omega arith, omega arith)
