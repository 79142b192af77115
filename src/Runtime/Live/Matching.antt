-- ===== src/Runtime/Live/Matching.antt =====
-- The records of a deadline sender are those of the pending commands.
use discord_voice_service.Common.{ℕ, false, Option, none, some, List, ◌∷◌, map}
use discord_voice_service.Playback.OpusFrame.{OpusFrame}
use discord_voice_service.Runtime.DeadlineSender.{
  PreparedPlayoutCommand, DeadlineSendRecord, DeadlineDropRecord, send_record, from_command,
}
use discord_voice_service.Runtime.Live.Pending.{PendingDeadlineCommand, new_pending}
use discord_voice_service.Runtime.Live.Accounting.{
  LiveDeadlineOutcome, sent, dropped, ReadyOutcomes,
}

-- What became of a command: sent, at a deadline and between two times, or dropped.
pub data Fate : Type 0 where
  was_sent : (expected_deadline send_started_at sent_at : ℕ) → Fate
  was_dropped : Fate

abbrev outcome_by : Fate → PreparedPlayoutCommand → LiveDeadlineOutcome
outcome_by (was_sent deadline started done) command =
    sent (send_record deadline started done command)
outcome_by was_dropped command = dropped (from_command command)

abbrev record_by : Fate → PreparedPlayoutCommand → List DeadlineSendRecord → List DeadlineSendRecord
record_by (was_sent deadline started done) command rest =
    send_record deadline started done command ∷ rest
record_by was_dropped command rest = rest

abbrev found_by : Fate → PreparedPlayoutCommand → Option DeadlineSendRecord
found_by (was_sent deadline started done) command = some (send_record deadline started done command)
found_by was_dropped command = none

-- A command that was given to the deadline sender and sent, and one that was dropped.
pub record Sending : Type 0 where
  pub command : PreparedPlayoutCommand
  pub frame : Option OpusFrame
  pub expected_deadline : ℕ
  pub send_started_at : ℕ
  pub sent_at : ℕ

pub record Dropping : Type 0 where
  pub command : PreparedPlayoutCommand
  pub frame : Option OpusFrame

abbrev pub send_record_of : Sending → DeadlineSendRecord
send_record_of g = send_record g.expected_deadline g.send_started_at g.sent_at g.command

abbrev drop_record_of : Dropping → DeadlineDropRecord
drop_record_of g = from_command g.command

abbrev pub pending_sent : Sending → PendingDeadlineCommand
pending_sent g = new_pending g.command g.frame

abbrev pub pending_dropped : Dropping → PendingDeadlineCommand
pending_dropped g = new_pending g.command g.frame

-- The records of these commands, in the channels of a deadline sender that runs.
abbrev pub ready_of : List Sending → List Dropping → ReadyOutcomes
ready_of sendings droppings = record {
  send_records = map send_record_of sendings;
  drop_records = map drop_record_of droppings;
  send_closed = false;
  drop_closed = false;
}
