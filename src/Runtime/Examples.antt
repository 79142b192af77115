-- ===== src/Runtime/Examples.antt =====
-- The runtime crate at concrete inputs.
use discord_voice_service.Common.{ℕ, ◌+◌, ◌≡◌, refl, true, some, none, List, [], ◌∷◌, ◌++◌}
use discord_voice_service.Voice.Udp.{PreparedVoicePacket}
use discord_voice_service.Playback.OpusFrame.{new_frame}
use discord_voice_service.Runtime.State.{Snapshot, default_snapshot, paused}
use discord_voice_service.Runtime.DeadlineSender.{
  PreparedPlayoutCommand, track, new_sender, Tick, Received, received, empty, disconnected, run,
}
use discord_voice_service.Runtime.DeadlineSender.Generation.{
  fresh, stale, handed_and_dropped, run-handed_and_dropped,
}
use discord_voice_service.Runtime.Playout.{PreparedTrackPlayout, new_playout_queue}
use discord_voice_service.Runtime.Playout.Refine.{
  push_op, pop_op, run_playout, spec_run, run_playout_refines,
}

abbrev session : Snapshot
session = record default_snapshot {
  state = paused;
  guild_id = some "guild";
  channel_id = some "channel";
  current_video_id = some "video";
}

abbrev packet_of : ℕ → PreparedVoicePacket
packet_of sequence = record {
  bytes = sequence ∷ [];
  duration_ms = 20;
  duration_samples = 960;
  is_track = true;
  rtp_sequence = sequence;
  rtp_timestamp = 960;
  protection_nonce = none;
}

abbrev command_of : ℕ → ℕ → PreparedPlayoutCommand
command_of sequence generation = record {
  packet = packet_of sequence;
  kind = track;
  media_frame = none;
  generation = generation;
}

-- A tick at a time, in the active generation 2, at which all that is asked for is given.
abbrev tick_at : ℕ → Received → Tick
tick_at time command = record {
  entered_at = time;
  command = command;
  now = time;
  active_generation = 2;
  drop_accepted = true;
  send_started_at = time;
  sink_error = none;
  sent_at = time + 10;
  record_accepted = true;
}

abbrev ticks : List Tick
ticks =
    tick_at 100 (received (command_of 1 2))
    ∷ tick_at 20_000_100 (received (command_of 2 1))
    ∷ tick_at 40_000_100 empty
    ∷ tick_at 60_000_100 (received (command_of 3 2))
    ∷ tick_at 80_000_100 disconnected
    ∷ []

run-handed_and_dropped_example :
    handed_and_dropped (run (new_sender 100) ticks)
    ≡ some ([] ++ fresh ticks, some ([] ++ stale ticks))
unfolding new_sender
run-handed_and_dropped_example = run-handed_and_dropped (new_sender 100) [] ticks refl refl refl (
  (refl, refl, refl),
  ((refl, refl, refl), ((refl, refl, refl), ((refl, refl, refl), ((refl, refl, refl), tt)))),
)

abbrev prepared : ℕ → PreparedTrackPlayout
prepared sequence = record { command = command_of sequence 2; frame = new_frame (1 ∷ []) 20 }

run_playout_refines_example :
    run_playout new_playout_queue
      (push_op (prepared 1) ∷ push_op (prepared 2) ∷ pop_op ∷ pop_op ∷ pop_op ∷ [])
    ≡ spec_run [] (push_op (prepared 1) ∷ push_op (prepared 2) ∷ pop_op ∷ pop_op ∷ pop_op ∷ [])
run_playout_refines_example =
    run_playout_refines
      (push_op (prepared 1) ∷ push_op (prepared 2) ∷ pop_op ∷ pop_op ∷ pop_op ∷ [])
