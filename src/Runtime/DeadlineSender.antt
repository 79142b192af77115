-- ===== src/Runtime/DeadlineSender.antt =====
-- crates/discord-voice-service-runtime/src/session/deadline_sender.rs: the loop that sends one prepared
-- packet at each deadline. Instants and durations are in nanoseconds. What the clock, the channels, the
-- shared generation and the socket give during one tick is a `Tick`.
pub mod Spacing
pub mod Generation
use discord_voice_service.Common.{
  ℕ, ◌+◌, max, Bool, true, false, not, ◌&&◌, Option, none, some, List, [], ◌∷◌, ◌++◌, String, leb,
  ◌==◌, if◌then◌else◌, Result, ok, err, ◌>>=◌, ◌>>◌,
}
use discord_voice_service.Common.Words.{saturating_add}
use discord_voice_service.Common.Maybe.{unwrap_or}
use discord_voice_service.Playback.OpusFrame.{duration_from_samples}
use discord_voice_service.Voice.Udp.{PreparedVoicePacket}
use discord_voice_service.Runtime.Error.{RuntimeError, invalid_state}

-- `DEADLINE_TICK`, 20 ms
abbrev pub deadline_tick : ℕ
deadline_tick = 20_000_000

pub data PreparedPacketKind : Type 0 where
  track : PreparedPacketKind
  scheduled_silence : PreparedPacketKind
  boundary_silence : PreparedPacketKind

pub record PreparedMediaFrame : Type 0 where
  pub duration_ms : ℕ
  pub duration_samples : ℕ
  pub media_position_ms : ℕ
  pub media_position_samples : ℕ
  pub media_byte_position : Option ℕ
  pub epoch : ℕ

pub record PreparedPlayoutCommand : Type 0 where
  pub packet : PreparedVoicePacket
  pub kind : PreparedPacketKind
  pub media_frame : Option PreparedMediaFrame
  pub generation : ℕ

pub record DeadlineSendRecord : Type 0 where
  pub expected_deadline : ℕ
  pub send_started_at : ℕ
  pub sent_at : ℕ
  pub kind : PreparedPacketKind
  pub duration_ms : ℕ
  pub duration_samples : ℕ
  pub rtp_sequence : ℕ
  pub rtp_timestamp : ℕ
  pub protection_nonce : Option ℕ
  pub media_frame : Option PreparedMediaFrame

pub record DeadlineDropRecord : Type 0 where
  pub kind : PreparedPacketKind
  pub duration_ms : ℕ
  pub duration_samples : ℕ
  pub rtp_sequence : ℕ
  pub rtp_timestamp : ℕ
  pub protection_nonce : Option ℕ
  pub media_frame : Option PreparedMediaFrame
  pub generation : ℕ

unfoldable pub from_command : PreparedPlayoutCommand → DeadlineDropRecord
from_command command = record {
  kind = command.kind;
  duration_ms = command.packet.duration_ms;
  duration_samples = command.packet.duration_samples;
  rtp_sequence = command.packet.rtp_sequence;
  rtp_timestamp = command.packet.rtp_timestamp;
  protection_nonce = command.packet.protection_nonce;
  media_frame = command.media_frame;
  generation = command.generation;
}

pub record DeadlineSenderMetrics : Type 0 where
  pub sent : List DeadlineSendRecord
  pub empty_tick_count : ℕ

abbrev pub default_metrics : DeadlineSenderMetrics
default_metrics = record { sent = []; empty_tick_count = 0 }

-- The record that `record_sent` makes and returns.
unfoldable pub send_record : ℕ → ℕ → ℕ → PreparedPlayoutCommand → DeadlineSendRecord
send_record expected_deadline send_started_at sent_at command = record {
  expected_deadline = expected_deadline;
  send_started_at = send_started_at;
  sent_at = sent_at;
  kind = command.kind;
  duration_ms = command.packet.duration_ms;
  duration_samples = command.packet.duration_samples;
  rtp_sequence = command.packet.rtp_sequence;
  rtp_timestamp = command.packet.rtp_timestamp;
  protection_nonce = command.packet.protection_nonce;
  media_frame = command.media_frame;
}

unfoldable pub record_sent : DeadlineSenderMetrics → DeadlineSendRecord → DeadlineSenderMetrics
record_sent m r = record m { sent = m.sent ++ (r ∷ []) }

unfoldable pub record_empty_tick : DeadlineSenderMetrics → DeadlineSenderMetrics
record_empty_tick m = record m { empty_tick_count = saturating_add m.empty_tick_count 1 }

-- `handed` is what the sink was given and took. A channel of records holds what was put into it, and
-- `follows_generation` tells whether there is a shared generation to compare with.
pub record DeadlineSender : Type 0 where
  pub handed : List PreparedVoicePacket
  pub send_records : Option (List DeadlineSendRecord)
  pub drop_records : Option (List DeadlineDropRecord)
  pub follows_generation : Bool
  pub shutdown : Bool
  pub metrics : DeadlineSenderMetrics
  pub tick : ℕ
  pub next_deadline : Option ℕ

-- `new_with_next_deadline_records_and_generation`
unfoldable pub new_sender : ℕ → DeadlineSender
new_sender next_deadline = record {
  handed = [];
  send_records = some [];
  drop_records = some [];
  follows_generation = true;
  shutdown = false;
  metrics = default_metrics;
  tick = deadline_tick;
  next_deadline = some next_deadline;
}

-- What `try_recv` gives.
pub data Received : Type 0 where
  received : PreparedPlayoutCommand → Received
  empty : Received
  disconnected : Received

-- One tick: the clock where it begins, where the deadline has come, where the send starts and where it
-- is done, and the answers of the channels and the sink.
pub record Tick : Type 0 where
  pub entered_at : ℕ
  pub command : Received
  pub now : ℕ
  pub active_generation : ℕ
  pub drop_accepted : Bool
  pub send_started_at : ℕ
  pub sink_error : Option RuntimeError
  pub sent_at : ℕ
  pub record_accepted : Bool

unfoldable pub packet_send_interval : ℕ → ℕ
packet_send_interval duration_samples = max (duration_from_samples duration_samples) 1_000_000

-- `try_send` on a channel of records, where there is one.
abbrev pub offer {ℓ} :
    {A : Type ℓ} → Option (List A) → A → Bool → String → Result RuntimeError (Option (List A))
offer none r accepted message = ok none
offer (some rs) r true message = ok (some (rs ++ (r ∷ [])))
offer (some rs) r false message = err (invalid_state message)

abbrev pub sink_answer : Option RuntimeError → Result RuntimeError (Unit {0})
sink_answer none = ok tt
sink_answer (some e) = err e

unfoldable pub drop_stale :
    DeadlineSender → Tick → PreparedPlayoutCommand → Result RuntimeError DeadlineSender
drop_stale s t command = do
  drop_records ←
      offer s.drop_records (from_command command) t.drop_accepted
        "deadline drop record channel unavailable"
  ok (record s { drop_records = drop_records; next_deadline = some (t.now + s.tick) })

unfoldable pub deadline_after : ℕ → ℕ → ℕ → ℕ
deadline_after send_started_at sent_at send_interval =
    if leb (send_started_at + send_interval) sent_at
    then sent_at + send_interval
    else send_started_at + send_interval

unfoldable pub send_command :
    DeadlineSender → Tick → ℕ → PreparedPlayoutCommand → Result RuntimeError DeadlineSender
send_command s t expected_deadline command = do
  sink_answer t.sink_error
  let r = send_record expected_deadline t.send_started_at t.sent_at command
  send_records ← offer s.send_records r t.record_accepted "deadline send record channel unavailable"
  ok (record s {
    handed = s.handed ++ (command.packet ∷ []);
    send_records = send_records;
    metrics = record_sent s.metrics r;
    next_deadline = some (
        deadline_after t.send_started_at t.sent_at
          (packet_send_interval command.packet.duration_samples));
  })

unfoldable pub on_command :
    DeadlineSender → Tick → ℕ → Received → Result RuntimeError DeadlineSender
on_command s t expected_deadline empty =
    ok (record s { metrics = record_empty_tick s.metrics; next_deadline = some (t.now + s.tick) })
on_command s t expected_deadline disconnected = ok (record s { shutdown = true })
on_command s t expected_deadline (received command) =
    if s.follows_generation && not (command.generation == t.active_generation)
    then drop_stale s t command
    else send_command s t expected_deadline command

-- The deadline that the tick waits for.
unfoldable pub expected_deadline_of : DeadlineSender → Tick → ℕ
expected_deadline_of s t = unwrap_or s.next_deadline (t.entered_at + s.tick)

unfoldable pub tick_once : DeadlineSender → Tick → Result RuntimeError DeadlineSender
unfolding on_command
tick_once s t =
    on_command (record s { next_deadline = none }) t (expected_deadline_of s t) t.command

-- `run`, over the ticks that there are: it stops where the sender is shut down. The flag is shared, and a
-- shutdown that comes from outside is where the ticks end.
unfoldable pub run : DeadlineSender → List Tick → Result RuntimeError DeadlineSender
run s [] = ok s
run s (t ∷ ts) = if s.shutdown then ok s else (tick_once s t >>= λ s'. run s' ts)
