-- ===== src/Playback/Pacer.antt =====
-- crates/discord-voice-service-playback/src/pacer.rs: the deadlines of the packets of one stream. An
-- instant and a duration are numbers of nanoseconds, and what `Instant::now()` gives is an argument.
pub mod Spacing
use discord_voice_service.Common.{
  ℕ, ◌+◌, ◌-◌, max, Bool, true, false, ◌&&◌, ltb, leb, if◌then◌else◌,
}
use discord_voice_service.Common.Bytes.{Bytes}
use discord_voice_service.Common.{List, [], ◌∷◌}

-- `FRAME_DURATION`, 20 ms
abbrev pub frame_duration : ℕ
frame_duration = 20_000_000

abbrev pub silence_frame : Bytes
silence_frame = 0xf8 ∷ 0xff ∷ 0xfe ∷ []

pub data PacedPacketKind : Type 0 where
  track : PacedPacketKind
  non_track : PacedPacketKind

abbrev pub is_track : PacedPacketKind → Bool
is_track track = true
is_track non_track = false

pub record PacerMark : Type 0 where
  pub media_clock_reset : Bool
  pub tempo_rebased : Bool

pub record AudioPacer : Type 0 where
  pub ideal_deadline : ℕ
  pub minimum_deadline : ℕ
  pub emitted_frames : ℕ
  pub clock_reset_count : ℕ
  pub tempo_rebase_count : ℕ

-- `AudioPacer::starting_after` at the instant `now`; `AudioPacer::new` has the delay 0.
unfoldable pub starting_after : ℕ → ℕ → AudioPacer
starting_after now delay = record {
  ideal_deadline = now + delay;
  minimum_deadline = now + delay;
  emitted_frames = 0;
  clock_reset_count = 0;
  tempo_rebase_count = 0;
}

unfoldable pub next_deadline : AudioPacer → ℕ
next_deadline pacer = max pacer.ideal_deadline pacer.minimum_deadline

unfoldable pub reset_after_interruption_at : AudioPacer → ℕ → ℕ → AudioPacer
reset_after_interruption_at pacer now next_spacing = record pacer {
  ideal_deadline = now + next_spacing;
  minimum_deadline = now + next_spacing;
  clock_reset_count = pacer.clock_reset_count + 1;
}

-- `reset_deadline` at the instant `now`
unfoldable pub reset_deadline : AudioPacer → ℕ → AudioPacer
reset_deadline pacer now = reset_after_interruption_at pacer now 0

-- The test of `mark_sent`: the packet is late by its own duration, or by more.
unfoldable pub is_late : ℕ → ℕ → ℕ → Bool
is_late scheduled_deadline duration send_started_at =
    ltb 0 duration && leb duration (send_started_at - scheduled_deadline)

unfoldable pub set_deadlines : AudioPacer → ℕ → AudioPacer
set_deadlines pacer deadline = record pacer {
  ideal_deadline = deadline;
  minimum_deadline = deadline;
}

unfoldable pub count_emitted : Bool → AudioPacer → AudioPacer
count_emitted tempo_rebased pacer = record pacer {
  emitted_frames = pacer.emitted_frames + 1;
  tempo_rebase_count =
      if tempo_rebased then pacer.tempo_rebase_count + 1 else pacer.tempo_rebase_count;
}

-- The pacer after `mark_sent`.
unfoldable pub mark_sent : AudioPacer → PacedPacketKind → ℕ → ℕ → ℕ → AudioPacer
mark_sent pacer packet_kind scheduled_deadline duration send_started_at =
    count_emitted (is_late scheduled_deadline duration send_started_at && is_track packet_kind) (
      if is_late scheduled_deadline duration send_started_at
      then reset_after_interruption_at pacer send_started_at duration
      else set_deadlines pacer (send_started_at + duration))

-- What `mark_sent` returns.
unfoldable pub mark_of : PacedPacketKind → ℕ → ℕ → ℕ → PacerMark
mark_of packet_kind scheduled_deadline duration send_started_at = record {
  media_clock_reset = is_late scheduled_deadline duration send_started_at;
  tempo_rebased = is_late scheduled_deadline duration send_started_at && is_track packet_kind;
}

-- `mark_emitted` at the instant `now`
unfoldable pub mark_emitted : AudioPacer → ℕ → ℕ → AudioPacer
mark_emitted pacer duration now = mark_sent pacer track (next_deadline pacer) duration now
